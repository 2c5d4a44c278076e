-- ===== src/Tests/GeneratedFile.antt =====
-- The tool with one file, which is the world, and a formatter that adds a byte.
use warpcoil.Base.{ℕ, ◌≡◌, refl, sym, ap, List, [], ◌∷◌, ◌++◌, some, none}
use warpcoil.Generated.Interface.{equal}
use warpcoil.GeneratedFile.{
  content, exited, Outside, update_generated_file, run_code_generator_command_line_tool,
}
use warpcoil.GeneratedFile.Outcome.{
  WritesAreRead, IsGenerated, run_code_generator_command_line_tool-content,
}

abbrev one_file : Outside (List ℕ) (List ℕ)
one_file = record {
  read_file = λ file w. content w;
  write_file = λ file bytes w. (none, bytes);
  absolute_path = λ path. some path;
  run_process = λ executable current_path input w. (exited 0 (input ++ 10 ∷ []), w);
}

writes_are_read : WritesAreRead one_file
writes_are_read file bytes w w' e = ap (λ x. content x.1) (sym e)

-- The formatted code replaces what is there.
run_code_generator_command_line_tool-content_example :
    (bytes : List ℕ) × IsGenerated one_file (7 ∷ []) bytes
    × (one_file.read_file (2 ∷ []) (7 ∷ 10 ∷ []) ≡ content bytes)
unfolding run_code_generator_command_line_tool update_generated_file equal
run_code_generator_command_line_tool-content_example =
    run_code_generator_command_line_tool-content one_file writes_are_read (1 ∷ []) (2 ∷ []) (7 ∷ [])
      ((3 ∷ []) ∷ (4 ∷ []) ∷ []) (5 ∷ []) (7 ∷ 10 ∷ []) refl

-- The directory of the formatter's configuration is missing.
no_config_dir :
    run_code_generator_command_line_tool one_file
      ((1 ∷ []) ∷ (2 ∷ []) ∷ (3 ∷ []) ∷ [])
      (7 ∷ [])
      (5 ∷ [])
    ≡ (1, 5 ∷ [])
unfolding run_code_generator_command_line_tool
no_config_dir = refl
