-- ===== src/Assembler/Duplicates.antt =====
-- tools/assembler/tms32010_as.py: a label that two lines define.
use tms32010_sv.Base.Cases.{absent, some_or_none}
use tms32010_sv.Base.{◌≡◌, ◌≢◌, inl, inr, refl, sym, ◌∙◌, List, [], ◌∷◌, ◌++◌, none, some}
use tms32010_sv.Base.Int.{pos}
use tms32010_sv.Base.Text.{Text}
use tms32010_sv.Database.{ok}
use tms32010_sv.Assembler.Source.{SourceLine, split_label}
use tms32010_sv.Assembler.Expression.{Names, lookup}
use tms32010_sv.Assembler.Encode.{Assembler}
use tms32010_sv.Assembler.Passes.{
  First, AssemblyResult, add_label, first_pass, first_start, assemble,
}
use tms32010_sv.Assembler.Inversion.{not_raised, bind-ok, ok-bind}
use tms32010_sv.Assembler.Locations.{first_line-ok, first_pass-Extends}
use tms32010_sv.Assembler.Labels.{label_added}

-- A label that a line adds was not there.
label_new :
    (label : Text) (state : First) (line : SourceLine) {symbols : Names}
    → add_label (some label) state line ≡ ok symbols
    → lookup label state.symbols ≡ none
unfolding add_label
label_new label state line h = elim (some_or_none (lookup label state.symbols)) [
  | inl new ↦ new
  | inr (old, used) ↦ absurd (not_raised (rw (used, add_label) at h))
]

module _ (asm : Assembler) where
  first_pass-append :
      (before after : List SourceLine) (state final : First)
      → first_pass asm (before ++ after) state ≡ ok final
      → (reached : First) × (first_pass asm before state ≡ ok reached)
        × (first_pass asm after reached ≡ ok final)
  unfolding first_pass
  first_pass-append [] after state final h = (state, refl, h)
  first_pass-append (line ∷ before) after state final h =
      let (next, one, others) = bind-ok h in
      let (reached, first, second) = first_pass-append before after next final others in
      (reached, ok-bind _ one first, second)

  -- The symbols after a line with a label, and before one.
  defined_after :
      (line : SourceLine) (after : List SourceLine) (label : Text) (state final : First)
      → first_pass asm (line ∷ after) state ≡ ok final
      → (split_label line).1 ≡ some label
      → (next : First) × (first_pass asm after next ≡ ok final)
        × ((lookup label state.symbols ≡ none)
            × (lookup label next.symbols ≡ some (pos state.location)))
  unfolding first_pass
  defined_after line after label state final h labelled =
      let (next, one, others) = bind-ok h in
      let added = rw labelled at (first_line-ok asm line state next one).0 in
      (next, others, (label_new label state line added, label_added label state line added))

  -- An assembly in which two lines define one label never succeeds.
  pub assemble-duplicate :
      (before between after : List SourceLine) (line other : SourceLine) (label : Text)
      (result : AssemblyResult)
      → (split_label line).1 ≡ some label
      → (split_label other).1 ≡ some label
      → assemble asm (before ++ (line ∷ (between ++ (other ∷ after)))) ≢ ok result
  unfolding assemble
  assemble-duplicate before between after line other label result first second h =
      let (final, pass, _) = bind-ok h in
      let (here, _, from_line) = first_pass-append before _ first_start final pass in
      let (next, rest, (_, defined)) = defined_after line _ label here final from_line first in
      let (there, middle, from_other) = first_pass-append between _ next final rest in
      let (_, _, (unused, _)) = defined_after other after label there final from_other second in
      let kept =
        (first_pass-Extends asm between next there middle).keeps label (pos here.location)
          defined in
      absent (sym unused ∙ kept)
