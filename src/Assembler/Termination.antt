-- ===== src/Assembler/Termination.antt =====
-- tools/assembler/tms32010_as.py: the inclusion of files ends. Each file on the stack is one less to go.
use tms32010_sv.Base.Cases.{some_or_none}
use tms32010_sv.Base.{
  ap, ℕ, zero, suc, ◌≤◌, ◌<◌, ◌≡◌, ◌≢◌, ◌⊎◌, inl, inr, refl, sym, ◌∙◌, arith, true, false,
  Bool-cases, ◌||◌, List, [], ◌∷◌, ◌++◌, length, if◌then◌else◌,
}
use tms32010_sv.Base.Text.{Text, same_codes, same_codes-eq, same_codes_self, split_lines}
use tms32010_sv.Database.{ok, failed}
use tms32010_sv.Assembler.Source.{SourceLine, AssemblyError, Asm, ◌>>=◌, statement, out_of_fuel}
use tms32010_sv.Assembler.Include.{
  FileSystem, Contents, contents, unreadable, undecodable, include_name, expand_line, expand_lines,
  in_stack, expand_text, expand_file,
}

-- The files that are not on the stack.
unvisited : List Text → List Text → ℕ
unvisited stack [] = 0
unvisited stack (file ∷ files) =
    let rest = unvisited stack files in if in_stack file stack then rest else suc rest

in_stack-append :
    (path : Text) (stack : List Text) (last : Text)
    → in_stack path (stack ++ (last ∷ [])) ≡ (in_stack path stack || same_codes last path)
unfolding in_stack
in_stack-append path [] last = ground arith
in_stack-append path (other ∷ stack) last = ground (arith, in_stack-append path stack last)

unvisited-le :
    (stack : List Text) (last : Text) (files : List Text)
    → unvisited (stack ++ (last ∷ [])) files ≤ unvisited stack files
unfolding unvisited
unvisited-le stack last [] = omega arith
unvisited-le stack last (file ∷ files) =
    ground (arith, unvisited-le stack last files, in_stack-append file stack last)

unvisited-lt :
    (stack : List Text) (last : Text) (files : List Text)
    → in_stack last files ≡ true
    → in_stack last stack ≡ false
    → unvisited (stack ++ (last ∷ [])) files < unvisited stack files
unfolding unvisited in_stack
unvisited-lt stack last [] known new = cc
unvisited-lt stack last (file ∷ files) known new = elim (Bool-cases (same_codes file last)) [
  | inl same ↦
      rw (same_codes-eq file last same, in_stack-append last stack last, new, same_codes_self last)
        (omega (arith, unvisited-le stack last files))
  | inr other ↦ ground (
    arith,
    in_stack-append file stack last,
    unvisited-lt stack last files (rw (other, in_stack) at known) new,
  )
]

module _ {A : Type 0} where
  abbrev exhausted : Asm A
  exhausted = failed out_of_fuel

  abbrev returns : A → Asm A
  returns a = ok a

  ok_not_exhausted : {a : A} → returns a ≢ exhausted
  ok_not_exhausted h = cc

  abbrev raises : AssemblyError → Asm A
  raises e = failed e

failed_not_exhausted :
    {A B : Type 0} {e : AssemblyError} → raises {A = A} e ≢ exhausted → raises {A = B} e ≢ exhausted
failed_not_exhausted h same = h (cc same)

bind-not_exhausted :
    {A B : Type 0} {m : Asm A} (f : A → Asm B)
    → m ≢ exhausted
    → ((a : A) → f a ≢ exhausted)
    → (m >>= f) ≢ exhausted
unfolding ◌>>=◌
bind-not_exhausted {m = ok a} f first later h = later a h
bind-not_exhausted {m = failed e} f first later h = failed_not_exhausted first h

abbrev unfinished : Asm (List SourceLine)
unfinished = exhausted

expand_line-not_exhausted :
    (include : Text → Asm (List SourceLine)) (line : SourceLine)
    → ((name : Text) → include name ≢ unfinished)
    → expand_line include line ≢ unfinished
unfolding expand_line
expand_line-not_exhausted include line h =
    elim (some_or_none (include_name (statement line.text))) [
      | inl plain ↦ rw (plain, expand_line) ok_not_exhausted
      | inr (name, e) ↦ rw (e, expand_line) (h name)
    ]

expand_lines-not_exhausted :
    (include : Text → Asm (List SourceLine)) (path : Text) (number : ℕ) (texts : List Text)
    → ((name : Text) → include name ≢ unfinished)
    → expand_lines include path number texts ≢ unfinished
unfolding expand_lines
expand_lines-not_exhausted include path number [] h = ok_not_exhausted
expand_lines-not_exhausted include path number (text ∷ rest) h =
    bind-not_exhausted _
      (expand_line-not_exhausted include (record { path = path; number = number; text = text }) h)
      λ lines.
        bind-not_exhausted _ (expand_lines-not_exhausted include path (suc number) rest h)
          λ more. ok_not_exhausted

-- Of an error that is another.
abbrev code_of : AssemblyError → ℕ
code_of out_of_fuel = 0
code_of _ = 1

abbrev error_code : {A : Type 0} → Asm A → ℕ
error_code (ok a) = 2
error_code (failed e) = code_of e

other_error : {A : Type 0} (e : AssemblyError) → code_of e ≡ 1 → raises {A = A} e ≢ exhausted
other_error e h same =
    let clash : 1 ≡ 0 = sym h ∙ ap error_code same in absurd (omega (arith, clash))

contents_cases :
    (c : Contents) → ((text : Text) × (c ≡ contents text)) ⊎ ((c ≡ unreadable) ⊎ (c ≡ undecodable))
contents_cases (contents text) = inl (text, refl)
contents_cases unreadable = inr (inl refl)
contents_cases undecodable = inr (inr refl)

unvisited-nil : (files : List Text) → unvisited [] files ≡ length files
unfolding unvisited in_stack
unvisited-nil [] = refl
unvisited-nil (file ∷ files) = ap suc (unvisited-nil files)

module _ (fs : FileSystem) (files : List Text)
    (finite : (path text : Text) → fs.read path ≡ contents text → in_stack path files ≡ true) where
  expand_file-not_exhausted :
      (fuel : ℕ) (path : Text) (stack : List Text)
      → unvisited stack files < fuel
      → expand_file fs fuel path stack ≢ unfinished
  unfolding expand_file expand_text
  expand_file-not_exhausted zero path stack below = absurd (omega arith)
  expand_file-not_exhausted (suc fuel) path stack below = elim (Bool-cases (in_stack path stack)) [
    | inl visited ↦ rw (visited, expand_file) (other_error _ refl)
    | inr new ↦ elim (contents_cases (fs.read path)) [
      | inr (inl missing) ↦ rw (new, expand_file, missing) (other_error _ refl)
      | inr (inr broken) ↦ rw (new, expand_file, broken) (other_error _ refl)
      | inl (text, found) ↦
          (let fewer = unvisited-lt stack path files (finite path text found) new in
            rw (new, expand_file, found)
              (expand_lines-not_exhausted _ path 1 (split_lines text) λ name.
                elim (some_or_none (fs.resolve (fs.parent path) name)) [
                  | inl fails ↦ rw fails (other_error _ refl)
                  | inr (inner, e) ↦
                      rw e
                        (expand_file-not_exhausted fuel inner (stack ++ (path ∷ [])) (omega arith))
                ]))
    ]
  ]

  -- The inclusion of files ends: if every file that can be read is one of a list of files, the fuel of
  -- one round more than there are files is enough, whatever the files include.
  pub expand_file-ends :
      (path : Text) → expand_file fs (suc (length files)) path [] ≢ failed out_of_fuel
  expand_file-ends path =
      expand_file-not_exhausted (suc (length files)) path [] (omega (arith, unvisited-nil files))
