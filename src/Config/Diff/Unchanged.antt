-- ===== src/Config/Diff/Unchanged.antt =====
-- config/utils.rs: of equal maps, no entry is noted as changed.
use astra_camilla_dsp.Common.{◌≡◌, refl, sym, ◌∙◌, inl, inr, Bool, true, Option, none, some, List}
use astra_camilla_dsp.Common.{[], ◌∷◌, ◌==◌, Bool-cases, Option-cases, length, All, some-eq}
use Prim.Native.String.{String}
use text.Mathlib.Text.{◌==◌ as str_eq}
use text.Mathlib.TextEquality.{eq_iff}
use astra_camilla_dsp.Config.Pipeline.{lookup}
use astra_camilla_dsp.Config.Diff.{all_in, same_map, same_section, changed, changed_section}

module _ {V : Type 0} where
  -- A name has one entry, as in a `HashMap`: every entry is the one that its name finds.
  abbrev pub Unique : List (String × V) → Type 0
  Unique m = All (λ e. lookup e.0 m ≡ some e.1) m

  abbrev pub UniqueSection : Option (List (String × V)) → Type 0
  UniqueSection none = Unit
  UniqueSection (some m) = Unique m

module _ {V : Type 0} (same : V → V → Bool) where
  -- Each entry that is found in one map is found in the other, and is the same there.
  all_in-lookup :
      (m n : List (String × V)) (name : String) {v : V}
      → all_in same m n ≡ true
      → lookup name m ≡ some v
      → (w : V) × (lookup name n ≡ some w) × (same v w ≡ true)
  all_in-lookup [] n name h e = cc
  all_in-lookup ((j, u) ∷ m) n name {v = v} h e = elim (Option-cases (lookup j n)) [
    | inl absent ↦ cc (rw (all_in, absent) at h)
    | inr (w, found) ↦
        let h' = rw (all_in, found) at h in
        elim (Bool-cases (same u w)) [
          | inr differs ↦ cc (rw differs at h')
          | inl agrees ↦ elim (Bool-cases (str_eq j name)) [
            | inl q ↦
                let p : j ≡ name = (eq_iff j name).0 q in
                let is : u ≡ v = some-eq (rw q at e) in (w, rw⁻¹ p found, rw⁻¹ is agrees)
            | inr q ↦ all_in-lookup m n name (rw agrees at h') (rw q at e)
          ]
        ]
  ]

  changed-nil :
      (symmetric : (v w : V) → same v w ≡ true → same w v ≡ true) (m new old : List (String × V))
      → all_in same old new ≡ true
      → All (λ e. lookup e.0 new ≡ some e.1) m
      → changed same m old ≡ []
  unfolding changed
  changed-nil symmetric [] new old h u = refl
  changed-nil symmetric ((j, v) ∷ m) new old h u =
      rw (changed-nil symmetric m new old h u.1) (elim (Option-cases (lookup j old)) [
        | inl absent ↦ rw absent refl
        | inr (o, found) ↦
            let (w, found', agrees) = all_in-lookup old new j h found in
            let is : v ≡ w = some-eq (sym u.0 ∙ found') in
            let agrees' : same v o ≡ true = symmetric o v (rw is agrees) in rw (found, agrees') refl
      ])

  pub changed_section-nil :
      (symmetric : (v w : V) → same v w ≡ true → same w v ≡ true)
      (old new : Option (List (String × V)))
      → same_section same old new ≡ true
      → UniqueSection new
      → changed_section same new old ≡ []
  unfolding changed_section same_section same_map
  changed_section-nil symmetric none none h u = refl
  changed_section-nil symmetric none (some n) h u = refl
  changed_section-nil symmetric (some m) none h u = refl
  changed_section-nil symmetric (some m) (some n) h u = elim (Bool-cases (length m == length n)) [
    | inl sized ↦ changed-nil symmetric n n m (rw sized at h) u
    | inr sized ↦ cc (rw sized at h)
  ]
