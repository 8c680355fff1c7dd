-- ===== src/Assembler/Labels.antt =====
-- tools/assembler/tms32010_as.py: the labels that the first pass defines, in the second pass.
use tms32010_sv.Base.Cases.{some_or_none}
use tms32010_sv.Base.{ℕ, ◌≡◌, inl, inr, refl, sym, ◌∙◌, ap, true, List, [], ◌∷◌, ◌++◌, some}
use tms32010_sv.Base.Int.{pos}
use tms32010_sv.Base.Text.{Text, same_codes_self}
use tms32010_sv.Database.{ok}
use tms32010_sv.Assembler.Source.{SourceLine, split_label, split_operation}
use tms32010_sv.Assembler.Expression.{Names, lookup}
use tms32010_sv.Assembler.Encode.{Assembler}
use tms32010_sv.Assembler.Passes.{
  First, Second, add_label, first_pass, second_line, second_pass, assemble, AssemblyResult,
  first_start, second_start,
}
use tms32010_sv.Assembler.Inversion.{not_raised, same_value, bind-ok, ok-bind}
use tms32010_sv.Assembler.Monotone.{Extends}
use tms32010_sv.Assembler.WordCounts.{counts_agree}
use tms32010_sv.Assembler.Locations.{
  FirstLine, bare, with_statement, first_line-ok, first_pass-Extends, second_statement-location,
}

pub label_added :
    (label : Text) (state : First) (line : SourceLine) {symbols : Names}
    → add_label (some label) state line ≡ ok symbols
    → lookup label symbols ≡ some (pos state.location)
unfolding add_label lookup
label_added label state line h = elim (some_or_none (lookup label state.symbols)) [
  | inr (old, used) ↦ absurd (not_raised (rw (used, add_label) at h))
  | inl new ↦ rw (← (same_value (rw (new, add_label) at h)), lookup, same_codes_self label) refl
]

second_pass-append :
    (asm : Assembler) (symbols : Names) (before after : List SourceLine) (state last : Second)
    → second_pass asm symbols (before ++ after) state ≡ ok last
    → (reached : Second) × (second_pass asm symbols before state ≡ ok reached)
unfolding second_pass
second_pass-append asm symbols [] after state last h = (state, refl)
second_pass-append asm symbols (line ∷ before) after state last h =
    let (next, one, others) = bind-ok h in
    let (reached, e) = second_pass-append asm symbols before after next last others in
    (reached, ok-bind _ one e)

module _ (asm : Assembler) (agree : counts_agree asm.entries ≡ true) where
  second_line-location :
      (line : SourceLine) (state next : First) (more : Names) (here there : Second)
      → FirstLine asm line state next
      → state.location ≡ here.location
      → Extends next.symbols more
      → second_line asm more line here ≡ ok there
      → next.location ≡ there.location
  unfolding second_line
  second_line-location line state next more here there (bare empty kept) same h s =
      kept ∙ same ∙ ap (λ (x : Second). x.location) (same_value (rw (empty, second_line) at s))
  second_line-location line state next more here there (with_statement full moved) same h s = sym (
      second_statement-location asm agree (split_operation (split_label line).0).0
        (split_operation (split_label line).0).1 here line next.location there h (rw same at moved)
        (rw (full, second_line) at s))

  label-reached :
      (before after : List SourceLine) (line : SourceLine) (label : Text) (start final : First)
      (state reached : Second)
      → first_pass asm (before ++ (line ∷ after)) start ≡ ok final
      → second_pass asm final.symbols before state ≡ ok reached
      → start.location ≡ state.location
      → (split_label line).1 ≡ some label
      → lookup label final.symbols ≡ some (pos reached.location)
  unfolding first_pass second_pass
  label-reached [] after line label start final state reached first second same labelled =
      let (next, one, others) = bind-ok first in
      let added = rw labelled at (first_line-ok asm line start next one).0 in
      let found =
        (first_pass-Extends asm after next final others).keeps label (pos start.location)
          (label_added label start line added) in
      found
      ∙ ap (λ (n : ℕ). some (pos n)) (same ∙ ap (λ (x : Second). x.location) (same_value second))
  label-reached (earlier ∷ before) after line label start final state reached first second same
        labelled =
      let (next, one, others) = bind-ok first in
      let (there, one_again, rest) = bind-ok second in
      label-reached before after line label next final there reached others rest
        (second_line-location earlier start next final.symbols state there
          (first_line-ok asm earlier start next one).1 same
          (first_pass-Extends asm (before ++ (line ∷ after)) next final others) one_again)
        labelled

  -- If the assembly of some lines succeeds, and `word_count` is 2 exactly for the operations of two
  -- words, then every label is bound to the location that the second pass has reached at its line.
  pub assemble-label :
      (before after : List SourceLine) (line : SourceLine) (label : Text) (result : AssemblyResult)
      → assemble asm (before ++ (line ∷ after)) ≡ ok result
      → (split_label line).1 ≡ some label
      → (reached : Second) × (second_pass asm result.symbols before second_start ≡ ok reached)
        × (lookup label result.symbols ≡ some (pos reached.location))
  unfolding assemble
  assemble-label before after line label result h labelled =
      let (final, first, rest) = bind-ok h in
      let (last, second, end) = bind-ok rest in
      let (reached, e) =
        second_pass-append asm final.symbols before (line ∷ after) second_start last second in
      rw (← (same_value end)) (
        reached,
        e,
        label-reached before after line label first_start final second_start reached first e refl
            labelled,
      )
