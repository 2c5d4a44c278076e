-- ===== src/GeneratedFile/Outcome.antt =====
-- What is in the file when the tool reports success.
use warpcoil.Base.{
  ℕ, ◌≡◌, refl, ◌∙◌, ap, subst, ◌⊎◌, inl, inr, Bool, true, false, Bool-cases, List, [], ◌∷◌, Option,
  none, some, ◌==◌, ==_iff, arith,
}
use warpcoil.Generated.Interface.{equal}
use warpcoil.GeneratedFile.{
  FileRead, content, read_error, problem, ProcessEnd, not_run, exited, Outside, write_result,
  after_read, update_generated_file, exit_code, formatted, generate, path_at_front, behind_front,
  run_code_generator_command_line_tool,
}

equal-true : (xs ys : List ℕ) → equal xs ys ≡ true → xs ≡ ys
unfolding equal
equal-true [] [] e = refl
equal-true [] (y ∷ ys) e = cc
equal-true (x ∷ xs) [] e = cc
equal-true (x ∷ xs) (y ∷ ys) e = elim (Bool-cases (x == y)) [
  | inl f ↦
      let rest : equal xs ys ≡ true = rw f at e in cc ((==_iff x y).0 f, equal-true xs ys rest)
  | inr f ↦ let no : false ≡ true = rw f at e in cc
]

differ : ◌≡◌ {A = ℕ} 1 0 → ⊥
differ h = omega arith

failed_tool : {World : Type 0} {v w : World} → ◌≡◌ {A = ℕ × World} (1, v) (0, w) → ⊥
failed_tool e = differ (ap (λ x. x.0) e)

module _ {World AbsolutePath : Type 0} (outside : Outside World AbsolutePath) where
  -- A file that was written without an error has the content that was written.
  abbrev pub WritesAreRead : Type 0
  WritesAreRead =
      (file bytes : List ℕ) (w w' : World)
      → outside.write_file file bytes w ≡ (none, w')
      → outside.read_file file w' ≡ content bytes

  -- What the tool is to write: the code, or what a process made of it that ended with 0.
  abbrev pub IsGenerated : List ℕ → List ℕ → Type 0
  IsGenerated code bytes =
      (bytes ≡ code)
      ⊎ ((executable : AbsolutePath) × (current_path : AbsolutePath) × (w : World) × (w' : World)
          × (outside.run_process executable current_path code w ≡ (exited 0 bytes, w')))

  module _ (writes : WritesAreRead) where
    write_result-content :
        (file bytes : List ℕ) (w w' : World) (r : Option ℕ × World)
        → outside.write_file file bytes w ≡ r
        → write_result outside r ≡ (true, w')
        → outside.read_file file w' ≡ content bytes
    unfolding write_result
    write_result-content file bytes w w' (none, v) f e =
        writes file bytes w w' (f ∙ ap (λ x. (none, x.1)) e)
    write_result-content file bytes w w' (some error, v) f e = cc

    after_read-content :
        (file bytes : List ℕ) (w w' : World) (r : FileRead)
        → outside.read_file file w ≡ r
        → after_read outside file bytes r w ≡ (true, w')
        → outside.read_file file w' ≡ content bytes
    unfolding after_read
    after_read-content file bytes w w' (content old) f e = elim (Bool-cases (equal old bytes)) [
      | inl same ↦
          let kept : (true, w) ≡ (true, w') = rw same at e in
          subst (λ x. outside.read_file file x ≡ content bytes) (ap (λ x. x.1) kept)
            (f ∙ ap content (equal-true old bytes same))
      | inr different ↦
          write_result-content file bytes w w' (outside.write_file file bytes w) refl
            (rw different at e)
    ]
    after_read-content file bytes w w' (read_error error) f e =
        write_result-content file bytes w w' (outside.write_file file bytes w) refl e
    after_read-content file bytes w w' (problem p) f e = cc

    update_generated_file-content :
        (file bytes : List ℕ) (w w' : World)
        → update_generated_file outside file bytes w ≡ (true, w')
        → outside.read_file file w' ≡ content bytes
    unfolding update_generated_file
    update_generated_file-content file bytes w w' e =
        after_read-content file bytes w w' (outside.read_file file w) refl e

    succeeded : (r : Bool × World) (w : World) → exit_code outside r ≡ (0, w) → r ≡ (true, w)
    unfolding exit_code
    succeeded (true, v) w e = cc
    succeeded (false, v) w e = absurd (failed_tool e)

    updated :
        (file bytes : List ℕ) (w w' : World)
        → exit_code outside (update_generated_file outside file bytes w) ≡ (0, w')
        → outside.read_file file w' ≡ content bytes
    updated file bytes w w' e =
        update_generated_file-content file bytes w w'
          (succeeded (update_generated_file outside file bytes w) w' e)

    formatted-content :
        (file code : List ℕ) (executable current_path : AbsolutePath) (w w' : World)
        (r : ProcessEnd × World)
        → outside.run_process executable current_path code w ≡ r
        → formatted outside file r ≡ (0, w')
        → (bytes : List ℕ) × IsGenerated code bytes × (outside.read_file file w' ≡ content bytes)
    unfolding formatted
    formatted-content file code exe dir w w' (not_run error, v) f e = absurd (failed_tool e)
    formatted-content file code exe dir w w' (exited n bytes, v) f e = elim (Bool-cases (n == 0)) [
      | inl zero_code ↦
          let n_zero : n ≡ 0 = (==_iff n 0).0 zero_code in
          (
            bytes,
            inr (exe, dir, w, v, f ∙ ap (λ k. (exited k bytes, v)) n_zero),
            updated file bytes v w' (rw zero_code at e),
          )
      | inr failed ↦ absurd (failed_tool (rw failed at e))
    ]

    generate-content :
        (file code : List ℕ) (clang_format config_dir : Option AbsolutePath) (w w' : World)
        → generate outside file code clang_format config_dir w ≡ (0, w')
        → (bytes : List ℕ) × IsGenerated code bytes × (outside.read_file file w' ≡ content bytes)
    unfolding generate
    generate-content file code none dir w w' e = (code, inl refl, updated file code w w' e)
    generate-content file code (some exe) none w w' e = absurd (failed_tool e)
    generate-content file code (some exe) (some dir) w w' e =
        formatted-content file code exe dir w w' (outside.run_process exe dir code w) refl e

    -- If a file that was written without an error has the content that was written, and the
    -- tool, given a program name, a file and any further arguments, ends with the code 0, then
    -- the file has the generated code as its content, or what a formatter with exit code 0 made
    -- of that code.
    pub run_code_generator_command_line_tool-content :
        (program file code : List ℕ) (rest : List (List ℕ)) (w w' : World)
        → run_code_generator_command_line_tool outside (program ∷ file ∷ rest) code w ≡ (0, w')
        → (bytes : List ℕ) × IsGenerated code bytes × (outside.read_file file w' ≡ content bytes)
    unfolding run_code_generator_command_line_tool
    run_code_generator_command_line_tool-content program file code rest w w' e =
        generate-content file code (path_at_front outside rest)
          (path_at_front outside (behind_front outside rest)) w w' e
