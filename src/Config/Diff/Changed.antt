-- ===== src/Config/Diff/Changed.antt =====
-- config/utils.rs: what the lists of names that `config_diff` gives stand for.
use astra_camilla_dsp.Common.{◌≡◌, refl, sym, ap, ◌∙◌, subst, ◌≢◌, inl, inr, Bool, true, false}
use astra_camilla_dsp.Common.{not, Option, none, some, List, [], ◌∷◌, if◌then◌else◌, Bool-cases}
use astra_camilla_dsp.Common.{Option-cases, >>=-eq-some, some-eq}
use Prim.Native.String.{String}
use text.Mathlib.Text.{◌==◌ as str_eq}
use text.Mathlib.TextEquality.{eq_iff}
use astra_camilla_dsp.Config.Pipeline.{lookup, any_is}
use astra_camilla_dsp.Config.Diff.{Comparisons, Configuration, same_kind, same_section}
use astra_camilla_dsp.Config.Diff.{note_changed, changed, changed_section, note_filter}
use astra_camilla_dsp.Config.Diff.{changed_filters, changed_filters_section, parameter_changes}
use astra_camilla_dsp.Config.Diff.{config_diff, filter_parameters, unchanged, same_configuration}
use astra_camilla_dsp.Config.Diff.{devices, pipeline, mixer_parameters}

if-ne {ℓ} :
    {A : Type ℓ} (b : Bool) (x y z : A) → x ≢ z → (if b then x else y) ≡ z → (b ≡ false) × (y ≡ z)
if-ne true x y z h e = absurd (h e)
if-ne false x y z h e = (refl, e)

module _ {V : Type 0} (same : V → V → Bool) where
  any_is-note_changed :
      (k : String) (v : V) (o : Option V) (names : List String) (name : String)
      → any_is names name ≡ true
      → any_is (note_changed same k v o names) name ≡ true
  any_is-note_changed k v none names name h = h
  any_is-note_changed k v (some w) names name h = elim (Bool-cases (same v w)) [
    | inl e ↦ rw e h
    | inr e ↦ elim (Bool-cases (str_eq k name)) [ inl q ↦ rw (e, q) refl | inr q ↦ rw (e, q) h ]
  ]

  -- An entry that another map has otherwise is noted.
  pub changed-any :
      (new old : List (String × V)) (name : String) {n o : V}
      → lookup name new ≡ some n
      → lookup name old ≡ some o
      → same n o ≡ false
      → any_is (changed same new old) name ≡ true
  unfolding changed
  changed-any [] old name e k d = cc
  changed-any ((j, v) ∷ new) old name {n = n} {o = o} e k d = elim (Bool-cases (str_eq j name)) [
    | inl q ↦
        let p : j ≡ name = (eq_iff j name).0 q in
        let v_is : v ≡ n = some-eq (rw q at e) in
        let k' : lookup j old ≡ some o = rw p k in
        let d' : same v o ≡ false = rw v_is d in rw (k', d', q) refl
    | inr q ↦
        any_is-note_changed j v (lookup j old) (changed same new old) name
          (changed-any new old name (rw q at e) k d)
  ]

  -- A noted name is in both maps.
  pub changed-known :
      (new old : List (String × V)) (name : String)
      → any_is (changed same new old) name ≡ true
      → (n : V) × (lookup name new ≡ some n)
  unfolding changed
  changed-known [] old name h = cc
  changed-known ((j, v) ∷ new) old name h = elim (Bool-cases (str_eq j name)) [
    | inl q ↦ (v, rw q refl)
    | inr q ↦ rw q (changed-known new old name (later (lookup j old) q h))
  ]
    where
      later :
          (o : Option V)
          → str_eq j name ≡ false
          → any_is (note_changed same j v o (changed same new old)) name ≡ true
          → any_is (changed same new old) name ≡ true
      later none q h = h
      later (some w) q h = elim (Bool-cases (same v w)) [
        | inl e ↦ rw e at h
        | inr e ↦ rw q at (rw e at h)
      ]

module _ {D O S FC PC : Type 0} (c : Comparisons D O S FC PC) where
  -- Where the loop over the filters runs to its end, no filter changed its type.
  pub changed_filters-same_kind :
      (new old : List (String × FC)) {names : List String} (name : String) {n o : FC}
      → changed_filters c new old ≡ some names
      → lookup name new ≡ some n
      → lookup name old ≡ some o
      → same_kind (c.filter_kind n) (c.filter_kind o) ≡ true
  unfolding changed_filters note_filter
  changed_filters-same_kind [] old name h e k = cc
  changed_filters-same_kind ((j, v) ∷ new) old name {n = n} {o = o} h e k =
      let (names', h', h'') = >>=-eq-some (changed_filters c new old) _ h in
      elim (Bool-cases (str_eq j name)) [
        | inl q ↦
            let p : j ≡ name = (eq_iff j name).0 q in
            let v_is : v ≡ n = some-eq (rw q at e) in
            let k' : lookup j old ≡ some o = rw p k in rw⁻¹ v_is (kept names' o (rw k' at h''))
        | inr q ↦ changed_filters-same_kind new old name h' (rw q at e) k
      ]
    where
      kept :
          (names : List String) (o : FC) {out : List String}
          → note_filter c j v (some o) names ≡ some out
          → same_kind (c.filter_kind v) (c.filter_kind o) ≡ true
      kept names o e = elim (Bool-cases (same_kind (c.filter_kind v) (c.filter_kind o))) [
        | inl q ↦ q
        | inr q ↦ cc (rw q at e)
      ]

  -- A name that the loop notes is in the new map.
  pub changed_filters-known :
      (new old : List (String × FC)) {names : List String} (name : String)
      → changed_filters c new old ≡ some names
      → any_is names name ≡ true
      → (n : FC) × (lookup name new ≡ some n)
  unfolding changed_filters note_filter
  changed_filters-known [] old name h e = cc
  changed_filters-known ((j, v) ∷ new) old {names = names} name h e =
      let (names', h', h'') = >>=-eq-some (changed_filters c new old) _ h in
      elim (Bool-cases (str_eq j name)) [
        | inl q ↦ (v, rw q refl)
        | inr q ↦ rw q (changed_filters-known new old name h' (later names' (lookup j old) q h''))
      ]
    where
      later :
          (before : List String) (o : Option FC)
          → str_eq j name ≡ false
          → note_filter c j v o before ≡ some names
          → any_is before name ≡ true
      later before none q k = subst (λ l. any_is l name ≡ true) (sym (some-eq k)) e
      later before (some w) q k =
          elim (Bool-cases (same_kind (c.filter_kind v) (c.filter_kind w))) [
            | inr s ↦ cc (rw s at k)
            | inl s ↦
                let k' = subst (λ l. any_is l name ≡ true) (sym (some-eq (rw s at k))) e in
                elim (Bool-cases (c.same_filter v w)) [
                  | inl t ↦ rw t at k'
                  | inr t ↦ rw q at (rw t at k')
                ]
          ]

  -- What is known where `config_diff` hands parameters over.
  pub record IsParameters (current new : Configuration D O S FC PC)
      (filters mixers processors : List String) : Type 0 where
    pub same_mixers : same_section c.same_mixer current.sections.mixers new.sections.mixers ≡ true
    pub noted_filters :
        changed_filters_section c new.sections.filters current.sections.filters ≡ some filters
    pub noted_mixers :
        changed_section c.same_mixer new.sections.mixers current.sections.mixers ≡ mixers
    pub noted_processors :
        changed_section c.same_processor new.sections.processors current.sections.processors
        ≡ processors

  not-false : (b : Bool) → not b ≡ false → b ≡ true
  not-false true e = refl
  not-false false e = cc

  pub config_diff-IsParameters :
      (current new : Configuration D O S FC PC) {filters mixers processors : List String}
      → config_diff c current new ≡ filter_parameters filters mixers processors
      → IsParameters current new filters mixers processors
  unfolding config_diff parameter_changes
  config_diff-IsParameters current new e =
      let (_, e₁) = if-ne (same_configuration c current new) unchanged _ _ (λ p. cc) e in
      let (_, e₂) =
        if-ne (not (c.same_devices current.devices new.devices)) devices _ _ (λ p. cc) e₁ in
      let (_, e₃) =
        if-ne (not (c.same_pipeline current.sections.pipeline new.sections.pipeline)) pipeline _ _
          (λ p. cc) e₂ in
      let (m, e₄) =
        if-ne (not (same_section c.same_mixer current.sections.mixers new.sections.mixers))
          mixer_parameters _ _ (λ p. cc) e₃ in
      parameters (not-false _ m) e₄
    where
      parameters :
          {filters mixers processors : List String}
          → same_section c.same_mixer current.sections.mixers new.sections.mixers ≡ true
          → parameter_changes c current.sections new.sections
            ≡ filter_parameters filters mixers processors
          → IsParameters current new filters mixers processors
      parameters m e =
          elim (Option-cases
            (changed_filters_section c new.sections.filters current.sections.filters)) [
              | inl none_ ↦ cc (rw (parameter_changes, none_) at e)
              | inr (fs, is) ↦
                  let e' = rw (parameter_changes, is) at e in
                  record {
                    same_mixers = m;
                    noted_filters = is ∙ ap some (args e').0;
                    noted_mixers = (args e').1;
                    noted_processors = (args e').2;
                  }
            ]
        where
          args :
              {fs ms ps gs ns qs : List String}
              → filter_parameters fs ms ps ≡ filter_parameters gs ns qs
              → (fs ≡ gs) × (ms ≡ ns) × (ps ≡ qs)
          args e = (cc, cc, cc)
