-- ===== src/GeneratedFile.antt =====
-- warpcoil/update_generated_file.hpp: the command line tool that writes generated code to a file.
--
-- The file system and clang-format are those of the outside world: parameters that may change it.
-- The texts of the log are left out.
pub mod Outcome
use warpcoil.Base.{ℕ, Bool, true, false, List, [], ◌∷◌, Option, none, some, ◌==◌, if◌then◌else◌}
use warpcoil.Generated.Interface.{equal}

-- `ventura::read_file_problem`
pub data ReadFileProblem : Type 0 where
  concurrent_write_detected file_too_large_for_memory : ReadFileProblem

-- What `ventura::read_file` returns.
pub data FileRead : Type 0 where
  content : List ℕ → FileRead
  read_error : (error : ℕ) → FileRead
  problem : ReadFileProblem → FileRead

-- What `ventura::run_process` returns, with what the process wrote to its output.
pub data ProcessEnd : Type 0 where
  not_run : (error : ℕ) → ProcessEnd
  exited : (code : ℕ) → (output : List ℕ) → ProcessEnd

pub record Outside (World AbsolutePath : Type 0) : Type 0 where
  pub read_file : (file : List ℕ) → World → FileRead
  pub write_file : (file new_content : List ℕ) → World → Option ℕ × World
  pub absolute_path : List ℕ → Option AbsolutePath
  pub run_process :
      (executable current_path : AbsolutePath) → (input : List ℕ) → World → ProcessEnd × World

module _ {World AbsolutePath : Type 0} (outside : Outside World AbsolutePath) where
  write_result : Option ℕ × World → Bool × World
  write_result (none, w) = (true, w)
  write_result (some error, w) = (false, w)

  after_read : List ℕ → List ℕ → FileRead → World → Bool × World
  unfolding write_result
  after_read file new_content (content old_content) w =
      if equal old_content new_content
      then (true, w)
      else write_result (outside.write_file file new_content w)
  after_read file new_content (read_error error) w =
      write_result (outside.write_file file new_content w)
  after_read file new_content (problem p) w = (false, w)

  unfoldable pub update_generated_file : (file new_content : List ℕ) → World → Bool × World
  unfolding after_read
  update_generated_file file new_content w =
      after_read file new_content (outside.read_file file w) w

  exit_code : Bool × World → ℕ × World
  exit_code (true, w) = (0, w)
  exit_code (false, w) = (1, w)

  formatted : List ℕ → ProcessEnd × World → ℕ × World
  unfolding exit_code
  formatted file (not_run error, w) = (1, w)
  formatted file (exited code output, w) =
      if code == 0 then exit_code (update_generated_file file output w) else (1, w)

  -- The third and the fourth argument, if they are absolute paths.
  path_at_front : List (List ℕ) → Option AbsolutePath
  path_at_front [] = none
  path_at_front (argument ∷ rest) = outside.absolute_path argument

  behind_front : List (List ℕ) → List (List ℕ)
  behind_front [] = []
  behind_front (argument ∷ rest) = rest

  generate : List ℕ → List ℕ → Option AbsolutePath → Option AbsolutePath → World → ℕ × World
  unfolding formatted exit_code
  generate file code none config_dir w = exit_code (update_generated_file file code w)
  generate file code (some clang_format) none w = (1, w)
  generate file code (some clang_format) (some config_dir) w =
      formatted file (outside.run_process clang_format config_dir code w)

  -- The exit code of the program.
  unfoldable pub run_code_generator_command_line_tool :
      (command_line_arguments : List (List ℕ)) → (code : List ℕ) → World → ℕ × World
  unfolding generate path_at_front behind_front
  run_code_generator_command_line_tool [] code w = (1, w)
  run_code_generator_command_line_tool (program ∷ []) code w = (1, w)
  run_code_generator_command_line_tool (program ∷ file ∷ rest) code w =
      generate file code (path_at_front rest) (path_at_front (behind_front rest)) w
