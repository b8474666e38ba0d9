-- ===== src/Tracegen/Footprint.antt =====
-- The different blocks of repeated sweeps over an array.
use native.Mathlib.Nat.{zero-add}
use mathlib.Core.Path.{subst}
use cache_hierarchy_simulato.Prelude.{
  ℕ, zero, suc, ◌+◌, ◌-◌, ◌≤◌, ◌≡◌, ap, true, false, ◌&&◌, List, [], ◌∷◌, ◌==◌, leb, contains,
  arith, inl, inr, Bool-cases,
}
use cache_hierarchy_simulato.Classification.{distinct}

-- A sweep that goes through the blocks `block first`, …, in this order, after a history.
unfoldable pub sweep : (ℕ → ℕ) → ℕ → ℕ → List ℕ → List ℕ
sweep block first zero h = h
sweep block first (suc count) h = sweep block (suc first) count (block first ∷ h)

unfoldable pub sweeps : (ℕ → ℕ) → ℕ → ℕ → List ℕ → List ℕ
unfolding sweep
sweeps block count zero h = h
sweeps block count (suc passes) h = sweeps block count passes (sweep block 0 count h)

-- The history holds exactly the blocks from `low` to `high`.
record Spans (low high : ℕ) (h : List ℕ) : Type 0 where
  ordered : low ≤ high
  held : (x : ℕ) → contains x h ≡ (leb low x && leb x high)
  count : distinct h ≡ suc (high - low)

one-Spans : (x : ℕ) → Spans x x (x ∷ [])
unfolding distinct
one-Spans x = record { ordered = omega arith; held = λ y. ground arith; count = omega arith }

again-Spans :
    (low high x : ℕ) (h : List ℕ) → Spans low high h → low ≤ x → x ≤ high → Spans low high (x ∷ h)
unfolding distinct
again-Spans low high x h s above below =
    let inside : contains x h ≡ true = ground (arith, s.held x) in
    record { ordered = s.ordered; held = λ y. ground (arith, s.held y); count = rw inside s.count }

next-Spans : (low high : ℕ) (h : List ℕ) → Spans low high h → Spans low (suc high) (suc high ∷ h)
unfolding distinct
next-Spans low high h s =
    let outside : contains (suc high) h ≡ false = ground (arith, s.held (suc high)) in
    record {
      ordered = omega (arith, s.ordered);
      held = λ y. ground (arith, s.held y, s.ordered);
      count = rw outside (omega (arith, s.count, s.ordered));
    }

-- The number of a block grows by at most one from an element to the next.
abbrev pub Climbs : (ℕ → ℕ) → Type 0
Climbs block = (i : ℕ) → (block i ≤ block (suc i)) × (block (suc i) ≤ suc (block i))

module _ (block : ℕ → ℕ) (climbs : Climbs block) where
  block_mono : (i k : ℕ) → block i ≤ block (i + k)
  block_mono i zero = let e : i + 0 ≡ i = omega arith in omega (arith, ap block e)
  block_mono i (suc k) =
      let e : i + suc k ≡ suc i + k = omega arith in
      omega (arith, climbs i, block_mono (suc i) k, ap block e)

  step-Spans :
      (low first : ℕ) (h : List ℕ)
      → Spans low (block first) h
      → Spans low (block (suc first)) (block (suc first) ∷ h)
  step-Spans low first h s =
      let (grows, little) = climbs first in
      elim (Bool-cases (block (suc first) == block first)) [
        | inl same ↦
            let e : block (suc first) ≡ block first = ground arith in
            rw e (again-Spans low (block first) (block first) h s s.ordered (omega arith))
        | inr more ↦
            let e : block (suc first) ≡ suc (block first) = ground arith in
            rw e (next-Spans low (block first) h s)
      ]

  sweep-new :
      (low first count : ℕ) (h : List ℕ)
      → Spans low (block first) h
      → Spans low (block (first + count)) (sweep block (suc first) count h)
  unfolding sweep
  sweep-new low first zero h s =
      let e : first ≡ first + 0 = omega arith in subst (λ k. Spans low (block k) h) e s
  sweep-new low first (suc count) h s =
      let e : suc first + count ≡ first + suc count = omega arith in
      subst (λ k. Spans low (block k) (sweep block (suc first) (suc count) h)) e
        (sweep-new low (suc first) count (block (suc first) ∷ h) (step-Spans low first h s))

  sweep-again :
      (low high last first count : ℕ) (h : List ℕ)
      → low ≤ block 0
      → block last ≤ high
      → first + count ≤ suc last
      → Spans low high h
      → Spans low high (sweep block first count h)
  unfolding sweep
  sweep-again low high last first zero h above below within s = s
  sweep-again low high last first (suc count) h above below within s =
      let from : 0 + first ≡ first = omega arith in
      let to : first + (last - first) ≡ last = omega arith in
      let inside : low ≤ block first = omega (arith, block_mono 0 first, ap block from) in
      let under : block first ≤ high =
        omega (arith, block_mono first (last - first), ap block to) in
      sweep-again low high last (suc first) count (block first ∷ h) above below (omega arith)
        (again-Spans low high (block first) h s inside under)

  -- After any sweeps over an array that has an element, the history has every block from that of the
  -- first element to that of the last one, and no other.
  sweeps-again :
      (last passes : ℕ) (h : List ℕ)
      → Spans (block 0) (block last) h
      → Spans (block 0) (block last) (sweeps block (suc last) passes h)
  unfolding sweeps
  sweeps-again last zero h s = s
  sweeps-again last (suc passes) h s = sweeps-again last passes (sweep block 0 (suc last) h) (
      sweep-again (block 0) (block last) last 0 (suc last) h (omega arith) (omega arith)
        (omega arith) s)

  pub distinct-sweeps :
      (last passes : ℕ)
      → distinct (sweeps block (suc last) (suc passes) []) ≡ suc (block last - block 0)
  unfolding sweeps
  distinct-sweeps last passes =
      let once : Spans (block 0) (block last) (sweep block 0 (suc last) []) =
        subst (λ k. Spans (block 0) (block k) (sweep block 0 (suc last) [])) (zero-add last)
          (sweep-new (block 0) 0 last (block 0 ∷ []) (one-Spans (block 0))) in
      (sweeps-again last passes (sweep block 0 (suc last) []) once).count
