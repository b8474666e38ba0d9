-- ===== src/RefFaCache/Victim.antt =====
-- The block that the reference model evicts.
use native.Mathlib.Decide.{ℕ_discrete}
use mathlib.Core.Path.{subst}
use mathlib.Core.Option.{none-ne-some}
use cache_hierarchy_simulato.Prelude.{
  ℕ, ◌≤◌, ◌<◌, ◌≡◌, ◌⊎◌, inl, inr, refl, ap, sym, ◌∙◌, false, [], ◌∷◌, none, some, ◌==◌,
  if◌then◌else◌, ltb, arith, Bool-cases,
}
use cache_hierarchy_simulato.RefFaCache.{Stamps, find, oldest_from}
use cache_hierarchy_simulato.RefFaCache.Maps.{IsUnique, IsRanked, find-cons}

abbrev pub IsEntry : Stamps → ℕ × ℕ → Type 0
IsEntry m e = find e.0 m ≡ some e.1

IsEntry-here : (e : ℕ × ℕ) (m : Stamps) → IsEntry (e ∷ m) e
unfolding find
IsEntry-here e m = ground arith

IsEntry-there : (x e : ℕ × ℕ) (m : Stamps) → find e.0 m ≡ none → IsEntry m x → IsEntry (e ∷ m) x
IsEntry-there x e m fresh h = elim (ℕ_discrete x.0 e.0) [
  | yes same ↦ absurd (none-ne-some x.1 (sym fresh ∙ ap (λ k. find k m) (sym same) ∙ h))
  | no other ↦ let skip : (x.0 == e.0) ≡ false = ground arith in find-cons x.0 e m ∙ rw skip h
]

-- The candidate of the scan after an entry.
smaller_of : ℕ × ℕ → ℕ × ℕ → ℕ × ℕ
smaller_of v e = if ltb e.1 v.1 then e else v

smaller_of-cases : (v e : ℕ × ℕ) → (smaller_of v e ≡ v) ⊎ (smaller_of v e ≡ e)
unfolding smaller_of
smaller_of-cases v e = elim (Bool-cases (ltb e.1 v.1)) [
  | inl smaller ↦ inr (rw smaller refl)
  | inr larger ↦ inl (rw larger refl)
]

smaller_of-le : (v e : ℕ × ℕ) → ((smaller_of v e).1 ≤ v.1) × ((smaller_of v e).1 ≤ e.1)
unfolding smaller_of
smaller_of-le v e = ground arith

oldest_from-cons :
    (v e : ℕ × ℕ) (m : Stamps) → oldest_from v (e ∷ m) ≡ oldest_from (smaller_of v e) m
unfolding oldest_from smaller_of
oldest_from-cons v e m = refl

-- The scan returns its candidate or an entry of the map.
oldest_from-IsEntry :
    (v : ℕ × ℕ) (m : Stamps) → IsUnique m → (oldest_from v m ≡ v) ⊎ IsEntry m (oldest_from v m)
unfolding oldest_from
oldest_from-IsEntry v [] u = inl refl
oldest_from-IsEntry v (e ∷ m) u =
    let c = smaller_of v e in
    rw (oldest_from-cons v e m) (elim (oldest_from-IsEntry c m u.1) [
      | inl same ↦ elim (smaller_of-cases v e) [
        | inl kept ↦ inl (same ∙ kept)
        | inr taken ↦ inr (subst (IsEntry (e ∷ m)) (sym (same ∙ taken)) (IsEntry-here e m))
      ]
      | inr found ↦ inr (IsEntry-there (oldest_from c m) e m u.0 found)
    ])

-- No entry has a smaller stamp than the one that the scan returns.
oldest_from_le : (v : ℕ × ℕ) (m : Stamps) → (oldest_from v m).1 ≤ v.1
unfolding oldest_from
oldest_from_le v [] = omega arith
oldest_from_le v (e ∷ m) =
    let c = smaller_of v e in
    rw (oldest_from-cons v e m) (omega (arith, oldest_from_le c m, (smaller_of-le v e).0))

-- An entry with a key of the list is its head or in its tail.
find-cons_cases :
    (x t : ℕ) (e : ℕ × ℕ) (m : Stamps)
    → find x (e ∷ m) ≡ some t
    → ((x ≡ e.0) × (e.1 ≡ t)) ⊎ (find x m ≡ some t)
unfolding find
find-cons_cases x t e m h = ground arith

oldest_from_least : (v : ℕ × ℕ) (m : Stamps) (x t : ℕ) → find x m ≡ some t → (oldest_from v m).1 ≤ t
unfolding find
oldest_from_least v [] x t h = absurd (none-ne-some t h)
oldest_from_least v (e ∷ m) x t h =
    let c = smaller_of v e in
    rw (oldest_from-cons v e m) (elim (find-cons_cases x t e m h) [
      | inl (_, stamp) ↦ omega (arith, oldest_from_le c m, (smaller_of-le v e).1)
      | inr there ↦ oldest_from_least c m x t there
    ])

module _ (e : ℕ × ℕ) (m : Stamps) where
  -- The victim of a map that is not empty is an entry, and none is older.
  pub victim-IsEntry : IsUnique (e ∷ m) → IsEntry (e ∷ m) (oldest_from e m)
  victim-IsEntry u = elim (oldest_from-IsEntry e m u.1) [
    | inl same ↦ subst (IsEntry (e ∷ m)) (sym same) (IsEntry-here e m)
    | inr found ↦ IsEntry-there (oldest_from e m) e m u.0 found
  ]

  pub victim_least : (x t : ℕ) → find x (e ∷ m) ≡ some t → (oldest_from e m).1 ≤ t
  victim_least x t h = elim (find-cons_cases x t e m h) [
    | inl (_, stamp) ↦ omega (arith, oldest_from_le e m)
    | inr there ↦ oldest_from_least e m x t there
  ]

-- The last entry of a list of stamps.
unfoldable pub last_entry : ℕ × ℕ → Stamps → ℕ × ℕ
last_entry e [] = e
last_entry e (e' ∷ m) = last_entry e' m

pub last_entry-IsEntry :
    (e : ℕ × ℕ) (m : Stamps) → IsUnique (e ∷ m) → IsEntry (e ∷ m) (last_entry e m)
unfolding last_entry
last_entry-IsEntry e [] u = IsEntry-here e []
last_entry-IsEntry e (e' ∷ m) u =
    IsEntry-there (last_entry e' m) e (e' ∷ m) u.0 (last_entry-IsEntry e' m u.1)

last_entry_le : (e : ℕ × ℕ) (m : Stamps) (top : ℕ) → IsRanked top (e ∷ m) → (last_entry e m).1 ≤ e.1
unfolding last_entry
last_entry_le e [] top r = omega arith
last_entry_le e (e' ∷ m) top r = omega (arith, last_entry_le e' m e.1 r.1, r.1.0)

-- Any entry of a ranked list but the last is newer than the last.
pub last_entry_oldest :
    (e : ℕ × ℕ) (m : Stamps) (top x t : ℕ)
    → IsRanked top (e ∷ m)
    → find x (e ∷ m) ≡ some t
    → (x ≡ (last_entry e m).0) ⊎ ((last_entry e m).1 < t)
unfolding last_entry find
last_entry_oldest e [] top x t r h = elim (find-cons_cases x t e [] h) [
  | inl (here, stamp) ↦ inl here
  | inr there ↦ absurd (none-ne-some t there)
]
last_entry_oldest e (e' ∷ m) top x t r h = elim (find-cons_cases x t e (e' ∷ m) h) [
  | inl (here, stamp) ↦ inr (omega (arith, last_entry_le e' m e.1 r.1, r.1.0))
  | inr there ↦ last_entry_oldest e' m e.1 x t r.1 there
]

-- The victim of a map with the same entries is the last entry.
pub victim-last_entry :
    (e d : ℕ × ℕ) (m ranks : Stamps) (top : ℕ)
    → IsUnique (e ∷ m)
    → IsUnique (d ∷ ranks)
    → IsRanked top (d ∷ ranks)
    → ((x : ℕ) → find x (e ∷ m) ≡ find x (d ∷ ranks))
    → (oldest_from e m).0 ≡ (last_entry d ranks).0
victim-last_entry e d m ranks top u u' r same =
    let v = oldest_from e m in
    let l = last_entry d ranks in
    let le : v.1 ≤ l.1 = victim_least e m l.0 l.1 (same l.0 ∙ last_entry-IsEntry d ranks u') in
    elim (last_entry_oldest d ranks top v.0 v.1 r (sym (same v.0) ∙ victim-IsEntry e m u)) [
      | inl block ↦ block
      | inr newer ↦ absurd (omega arith)
    ]
