-- ===== src/Memory/Versions/Laws.antt =====
-- src/memory.rs: which application version is the latest.
use mathlib.Core.Path.{subst}
use durust.Base.{
  true, false, none, some, List, [], ◌∷◌, ◌≡◌, ◌⊎◌, refl, arith, inl, inr, Bool-cases, Option-cases,
  All, All-map_imp, In,
}
use durust.Platform.{Platform}
use durust.Store.{values}
use durust.Provider.{VersionInfo}
use durust.Memory.{Inner}
use durust.Memory.Versions.{newest_version, get_latest_application_version}

module _ {p : Platform} where
  -- A version of the list that is at least as new as each.
  abbrev pub IsNewest : List (VersionInfo p) → VersionInfo p → Type 0
  IsNewest vs w =
      In w vs
      × All (λ (v : VersionInfo p). p.leb_time v.version_timestamp w.version_timestamp ≡ true) vs

  itself :
      (v : VersionInfo p)
      → ((a b : p.DateTime) → (p.leb_time a b ≡ true) ⊎ (p.leb_time b a ≡ true))
      → p.leb_time v.version_timestamp v.version_timestamp ≡ true
  itself v total = elim (total v.version_timestamp v.version_timestamp) [ inl h ↦ h | inr h ↦ h ]

  other_way :
      (v u : VersionInfo p)
      → ((a b : p.DateTime) → (p.leb_time a b ≡ true) ⊎ (p.leb_time b a ≡ true))
      → p.leb_time v.version_timestamp u.version_timestamp ≡ false
      → p.leb_time u.version_timestamp v.version_timestamp ≡ true
  other_way v u total gt = elim (total v.version_timestamp u.version_timestamp) [
    | inl h ↦ absurd (ground arith)
    | inr h ↦ h
  ]

  none_empty : (vs : List (VersionInfo p)) → newest_version vs ≡ none → vs ≡ []
  unfolding newest_version
  none_empty [] h = refl
  none_empty (v ∷ vs) h = absurd (elim (Option-cases (newest_version vs)) [
    | inl e ↦ (let q : some v ≡ none = rw (e, newest_version) at h in ground arith)
    | inr (u, e) ↦ elim (Bool-cases (p.leb_time v.version_timestamp u.version_timestamp)) [
      | inl le ↦ (let q : some u ≡ none = rw (e, le, newest_version) at h in ground arith)
      | inr gt ↦ (let q : some v ≡ none = rw (e, gt, newest_version) at h in ground arith)
    ]
  ])

  IsNewest-head :
      (v : VersionInfo p) (vs : List (VersionInfo p))
      → ((a b : p.DateTime) → (p.leb_time a b ≡ true) ⊎ (p.leb_time b a ≡ true))
      → vs ≡ []
      → IsNewest (v ∷ vs) v
  IsNewest-head v [] total e = (inl refl, (itself v total, tt))
  IsNewest-head v (u ∷ vs) total e = absurd (ground arith)

  newest_version_lem :
      (vs : List (VersionInfo p)) (w : VersionInfo p)
      → ((a b : p.DateTime) → (p.leb_time a b ≡ true) ⊎ (p.leb_time b a ≡ true))
      → ((a b c : p.DateTime)
          → p.leb_time a b ≡ true
          → p.leb_time b c ≡ true
          → p.leb_time a c ≡ true)
      → newest_version vs ≡ some w
      → IsNewest vs w
  unfolding newest_version
  newest_version_lem [] w total trans h = absurd (ground arith)
  newest_version_lem (v ∷ vs) w total trans h = elim (Option-cases (newest_version vs)) [
    | inl empty ↦
        let e : some v ≡ some w = rw (empty, newest_version) at h in
        let q : v ≡ w = ground arith in
        subst (IsNewest (v ∷ vs)) q (IsNewest-head v vs total (none_empty vs empty))
    | inr (u, found) ↦
        let (m, old) = newest_version_lem vs u total trans found in
        elim (Bool-cases (p.leb_time v.version_timestamp u.version_timestamp)) [
          | inl le ↦
              let e : some u ≡ some w = rw (found, le, newest_version) at h in
              let q : u ≡ w = ground arith in subst (IsNewest (v ∷ vs)) q (inr m, (le, old))
          | inr gt ↦
              let e : some v ≡ some w = rw (found, gt, newest_version) at h in
              let q : v ≡ w = ground arith in
              let below : p.leb_time u.version_timestamp v.version_timestamp ≡ true =
                other_way v u total gt in
              subst (IsNewest (v ∷ vs)) q (
                inl refl,
                (
                  itself v total,
                  All-map_imp
                      (λ (x : VersionInfo p).
                        p.leb_time x.version_timestamp u.version_timestamp ≡ true)
                      (λ (x : VersionInfo p).
                        p.leb_time x.version_timestamp v.version_timestamp ≡ true)
                      vs
                      (λ x h.
                        trans x.version_timestamp u.version_timestamp v.version_timestamp h below)
                      old,
                ),
              )
        ]
  ]

  -- Where the order of instants is total and transitive, the latest application version is one of
  -- those stored and is at least as new as each of them; there is none only if none is stored.
  pub get_latest_application_version-IsNewest :
      (g : Inner p)
      → ((a b : p.DateTime) → (p.leb_time a b ≡ true) ⊎ (p.leb_time b a ≡ true))
      → ((a b c : p.DateTime)
          → p.leb_time a b ≡ true
          → p.leb_time b c ≡ true
          → p.leb_time a c ≡ true)
      → ((w : VersionInfo p) × (get_latest_application_version g ≡ some w)
          × IsNewest (values g.versions) w)
        ⊎ ((get_latest_application_version g ≡ none) × (values g.versions ≡ []))
  unfolding get_latest_application_version
  get_latest_application_version-IsNewest g total trans =
      elim (Option-cases (newest_version (values g.versions))) [
        | inl empty ↦ inr (empty, none_empty (values g.versions) empty)
        | inr (w, found) ↦
            inl (w, found, newest_version_lem (values g.versions) w total trans found)
      ]
