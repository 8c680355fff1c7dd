-- ===== src/Assembler/Include.antt =====
-- tools/assembler/tms32010_as.py: `_expand_file` and `_expand_text`, which put included files in place
-- of their lines, and the two entry points. The file system is a parameter; a path is its text. The
-- inclusion of files recurses on fuel.
use tms32010_sv.Base.{
  ℕ, zero, suc, ◌-◌, Bool, true, false, ◌&&◌, ◌||◌, List, [], ◌∷◌, ◌++◌, Option, none, some, ◌==◌,
  if◌then◌else◌,
}
use tms32010_sv.Base.Text.{Text, codes, same_codes, is_empty, is_space, lstrip, split_lines}
use tms32010_sv.Database.{ok, failed}
use tms32010_sv.Assembler.Source.{
  SourceLine, Asm, ◌>>=◌, statement, recursive_include, cannot_read, cannot_decode, cannot_resolve,
  out_of_fuel,
}
use tms32010_sv.Assembler.Encode.{Assembler}
use tms32010_sv.Assembler.Passes.{AssemblyResult, assemble}

-- `path.read_text(encoding="utf-8")`: a text, an `OSError`, or a `UnicodeDecodeError`.
pub data Contents : Type 0 where
  contents : Text → Contents
  unreadable undecodable : Contents

-- `resolve` is `(root / name).resolve()`, and none where it raises.
pub record FileSystem : Type 0 where
  pub read : Text → Contents
  pub parent : Text → Text
  pub resolve : Text → Text → Option Text

-- A character against a letter of the pattern, with `re.IGNORECASE`: the letter i has two more forms.
abbrev same_letter : ℕ → ℕ → Bool
same_letter letter c =
    c == letter || c == letter - 32 || (letter == 105 && (c == 0x130 || c == 0x131))

-- The text behind a word of the pattern.
unfoldable pub behind_letters : Text → Text → Option Text
behind_letters [] text = some text
behind_letters (_ ∷ _) [] = none
behind_letters (letter ∷ letters) (c ∷ text) =
    let rest = behind_letters letters text in if same_letter letter c then rest else none

-- `([^"]+)"` to the end of the text, without its first character.
unfoldable pub quoted : Text → Option Text
quoted [] = none
quoted (c ∷ text) =
    let rest = quoted text in
    if c == 34
    then if is_empty text then some [] else none
    else (elim rest [ none ↦ none | some name ↦ some (c ∷ name) ])

abbrev nonempty : Option Text → Option Text
nonempty none = none
nonempty (some []) = none
nonempty (some (c ∷ name)) = some (c ∷ name)

-- `\s+"([^"]+)"`.
abbrev spaced_name : Text → Option Text
spaced_name [] = none
spaced_name (c ∷ text) =
    if is_space c
    then (elim (lstrip text) [
      | [] ↦ none
      | quote ∷ rest ↦ if quote == 34 then nonempty (quoted rest) else none
    ])
    else none

-- The name in `\.include\s+"([^"]+)"`, if the whole statement matches.
unfoldable pub include_name : Text → Option Text
unfolding is_space lstrip behind_letters quoted
include_name [] = none
include_name (c ∷ text) =
    if c == 46
    then (elim (behind_letters (codes "include") text) [
      | none ↦ none
      | some rest ↦ spaced_name rest
    ])
    else none

-- `expanded.extend(…)` and `expanded.append(…)`, in front of what the rest of the loop adds.
unfoldable pub expand_line : (Text → Asm (List SourceLine)) → SourceLine → Asm (List SourceLine)
unfolding statement include_name
expand_line include line = elim (include_name (statement line.text)) [
  | some name ↦ include name
  | none ↦ ok (line ∷ [])
]

unfoldable pub expand_lines :
    (Text → Asm (List SourceLine)) → Text → ℕ → List Text → Asm (List SourceLine)
unfolding expand_line
expand_lines include path number [] = ok []
expand_lines include path number (text ∷ rest) =
    expand_line include record { path = path; number = number; text = text } >>= λ lines.
    expand_lines include path (suc number) rest >>= λ more. ok (lines ++ more)

-- `path in stack`.
unfoldable pub in_stack : Text → List Text → Bool
in_stack path [] = false
in_stack path (other ∷ rest) = same_codes other path || in_stack path rest

module _ (fs : FileSystem) where
  -- `_expand_text`, of which `_expand_file` is the argument.
  unfoldable pub expand_text :
      (Text → Asm (List SourceLine)) → Text → Text → Text → Asm (List SourceLine)
  unfolding expand_lines split_lines
  expand_text expand_path text source_name include_root =
      expand_lines
        (λ name. elim (fs.resolve include_root name) [
          | none ↦ failed (cannot_resolve name)
          | some path ↦ expand_path path
        ])
        source_name 1 (split_lines text)

  -- `_expand_file`.
  unfoldable pub expand_file : ℕ → Text → List Text → Asm (List SourceLine)
  unfolding expand_text in_stack
  expand_file zero path stack = failed out_of_fuel
  expand_file (suc fuel) path stack = elim (in_stack path stack) [
    | true ↦ failed (recursive_include (stack ++ (path ∷ [])))
    | false ↦ elim (fs.read path) [
      | contents text ↦
          expand_text (λ inner. expand_file fuel inner (stack ++ (path ∷ []))) text path
            (fs.parent path)
      | unreadable ↦ failed (cannot_read path)
      | undecodable ↦ failed (cannot_decode path)
    ]
  ]

  module _ (asm : Assembler) where
    -- `assemble_text` under a resolved root, and `assemble_file` of a resolved path.
    unfoldable pub assemble_text : ℕ → Text → Text → Text → Asm AssemblyResult
    unfolding expand_text expand_file assemble
    assemble_text fuel text source_name root =
        expand_text (λ path. expand_file fuel path []) text source_name root >>= λ lines.
        assemble asm lines

    unfoldable pub assemble_file : ℕ → Text → Asm AssemblyResult
    unfolding expand_file assemble
    assemble_file fuel path = expand_file fuel path [] >>= λ lines. assemble asm lines
