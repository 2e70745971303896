-- ===== src/Scen/Kill.antt =====
-- What a disruption of scen/objective_disrup.go does to the builds of a scenario.
use cloudlus.Base.{
  ◌≡◌, refl, sym, ap, ◌∙◌, Bool, true, false, ◌&&◌, ◌||◌, List, [], ◌∷◌, ◌++◌, String, map, keep,
  arith, Bool-cases, Option-cases, inl, inr, if◌then◌else◌,
}
use cloudlus.Base.Int.{ℤ, pos, ltb_ℤ, leb_ℤ}
use cloudlus.Scen.Model.{Facility, Build, Scenario, lifetime, build_alive, find_proto}
use cloudlus.Scen.Check.{ok}
use cloudlus.Scen.Deploy.{count_alive}
use cloudlus.Scen.Disrup.{Disruption, builds_for_disrup, mod_build_for_disrup, disrupt}
use cloudlus.Scen.Lifetimes.{cut_after, cut_before, dead_after, unborn, irrefl, positive_rest}
use cloudlus.Scen.Valid.{ok_eq, ok≢panic}
use cloudlus.Scen.Entries.{ok->>=}
use text.Mathlib.Text.{◌==◌ as str_eq}

module _ {W : Type 0} where
  -- A test for the builds that a disruption is to end.
  abbrev pub survives : Disruption W → ℤ → Build W → Bool
  survives dis u b = str_eq b.proto dis.kill_proto && ltb_ℤ b.time dis.time && build_alive u b

  mod_build-ended :
      (dis : Disruption W) (u : ℤ) (b : Build W)
      → ltb_ℤ dis.time (pos 0) ≡ false
      → leb_ℤ dis.time u ≡ true
      → survives dis u (mod_build_for_disrup dis b) ≡ false
  unfolding mod_build_for_disrup build_alive lifetime
  mod_build-ended dis u b h k = elim (Bool-cases (str_eq b.proto dis.kill_proto)) [
    | inr e ↦ rw (mod_build_for_disrup, h, e, e) refl
    | inl e ↦ elim (Bool-cases (ltb_ℤ b.time dis.time)) [
      | inr p ↦ elim (Bool-cases (build_alive dis.time b)) [
        | inr a ↦ rw (mod_build_for_disrup, h, e, a, e, p) refl
        | inl a ↦ rw (mod_build_for_disrup, h, e, a, e, p) refl
      ]
      | inl p ↦ elim (Bool-cases (build_alive dis.time b)) [
        | inr a ↦
            rw (mod_build_for_disrup, h, e, a, e, p)
              (dead_after b.time dis.time u (lifetime b) a p k)
        | inl a ↦
            rw (mod_build_for_disrup, h, e, a, e, p, positive_rest b.time dis.time p)
              (cut_after b.time dis.time u p k)
      ]
    ]
  ]

  mod_build-proto :
      (dis : Disruption W) (b : Build W) → (mod_build_for_disrup dis b).proto ≡ b.proto
  unfolding mod_build_for_disrup
  mod_build-proto dis b = ground arith

  mod_build-n : (dis : Disruption W) (b : Build W) → (mod_build_for_disrup dis b).n ≡ b.n
  unfolding mod_build_for_disrup
  mod_build-n dis b = ground arith

  -- Before the disruption a build is as alive as it was.
  mod_build-past :
      (dis : Disruption W) (u : ℤ) (b : Build W)
      → ltb_ℤ u dis.time ≡ true
      → build_alive u (mod_build_for_disrup dis b) ≡ build_alive u b
  unfolding mod_build_for_disrup build_alive lifetime
  mod_build-past dis u b k = elim (Bool-cases (ltb_ℤ dis.time (pos 0))) [
    | inl h ↦ rw (mod_build_for_disrup, h) refl
    | inr h ↦ elim (Bool-cases (str_eq b.proto dis.kill_proto)) [
      | inr e ↦ rw (mod_build_for_disrup, h, e) refl
      | inl e ↦ elim (Bool-cases (build_alive dis.time b)) [
        | inr a ↦ rw (mod_build_for_disrup, h, e, a) refl
        | inl a ↦ elim (Bool-cases (ltb_ℤ b.time dis.time)) [
          | inl p ↦
              rw (mod_build_for_disrup, h, e, a, positive_rest b.time dis.time p)
                (cut_before b.time dis.time u (lifetime b) a p k)
          | inr p ↦
              rw (mod_build_for_disrup, h, e, a)
                (unborn b.time dis.time u _ p k ∙ sym (unborn b.time dis.time u (lifetime b) p k))
        ]
      ]
    ]
  ]

  count_alive-map :
      (dis : Disruption W) (u : ℤ) (p : String) (bs : List (Build W)) (n : ℤ)
      → ltb_ℤ u dis.time ≡ true
      → count_alive u
          (keep (λ (b : Build W). str_eq b.proto p) (map (mod_build_for_disrup dis) bs))
          n
        ≡ count_alive u (keep (λ (b : Build W). str_eq b.proto p) bs) n
  unfolding keep count_alive
  count_alive-map dis u p [] n k = refl
  count_alive-map dis u p (b ∷ bs) n k =
      let same : str_eq (mod_build_for_disrup dis b).proto p ≡ str_eq b.proto p =
        ap (λ q. str_eq q p) (mod_build-proto dis b) in
      elim (Bool-cases (str_eq b.proto p)) [
        | inr e ↦ rw (same ∙ e, e) (count_alive-map dis u p bs n k)
        | inl e ↦
            rw (same ∙ e, e, count_alive, mod_build-past dis u b k, mod_build-n dis b)
              (count_alive-map dis u p bs _ k)
      ]

  keep-mod_build :
      (dis : Disruption W) (u : ℤ) (bs : List (Build W))
      → ltb_ℤ dis.time (pos 0) ≡ false
      → leb_ℤ dis.time u ≡ true
      → keep (survives dis u) (map (mod_build_for_disrup dis) bs) ≡ []
  unfolding keep
  keep-mod_build dis u [] h k = refl
  keep-mod_build dis u (b ∷ bs) h k =
      rw (keep, mod_build-ended dis u b h k) (keep-mod_build dis u bs h k)

  abbrev arriving : Disruption W → Facility W → Build W
  arriving dis f = record {
    time = dis.time;
    proto = dis.build_proto;
    n = pos 1;
    life = pos 0;
    fac = f;
  }

  one_unborn :
      (u : ℤ) (p : String) (b : Build W) (n : ℤ)
      → build_alive u b ≡ false
      → count_alive u (keep (λ (b : Build W). str_eq b.proto p) (b ∷ [])) n ≡ n
  unfolding keep count_alive
  one_unborn u p b n h = elim (Bool-cases (str_eq b.proto p)) [
    | inr e ↦ rw (keep, e) refl
    | inl e ↦ rw (keep, e, count_alive, h) refl
  ]

  unborn_build :
      (u t : ℤ) (b : Build W) → ltb_ℤ b.time t ≡ false → ltb_ℤ u t ≡ true → build_alive u b ≡ false
  unfolding build_alive
  unborn_build u t b h k = unborn b.time t u (lifetime b) h k

  count_alive-append :
      (u : ℤ) (p : String) (xs ys : List (Build W)) (n : ℤ)
      → count_alive u (keep (λ (b : Build W). str_eq b.proto p) (xs ++ ys)) n
        ≡ count_alive u
            (keep (λ (b : Build W). str_eq b.proto p) ys)
            (count_alive u (keep (λ (b : Build W). str_eq b.proto p) xs) n)
  unfolding keep count_alive
  count_alive-append u p [] ys n = refl
  count_alive-append u p (x ∷ xs) ys n = elim (Bool-cases (str_eq x.proto p)) [
    | inr e ↦ rw e (count_alive-append u p xs ys n)
    | inl e ↦ rw (e, count_alive) (count_alive-append u p xs ys _)
  ]

  -- The new facility starts with the disruption.
  new_unborn :
      (s : Scenario W) (dis : Disruption W) (new : List (Build W)) (u : ℤ) (p : String) (n : ℤ)
      → builds_for_disrup s dis ≡ ok new
      → ltb_ℤ u dis.time ≡ true
      → count_alive u (keep (λ (b : Build W). str_eq b.proto p) new) n ≡ n
  unfolding builds_for_disrup keep count_alive
  new_unborn s dis new u p n h k =
      elim (Bool-cases (ltb_ℤ dis.time (pos 0) || str_eq dis.build_proto "")) [
        | inl e ↦ rw (sym (ok_eq _ new (rw (builds_for_disrup, e) at h))) refl
        | inr e ↦ elim (Option-cases (find_proto dis.build_proto s.facs)) [
          | inl o ↦ absurd (ok≢panic new (rw (builds_for_disrup, e, o) at h))
          | inr (f, o) ↦ rw (sym (ok_eq _ new (rw (builds_for_disrup, e, o) at h))) (
              one_unborn u p (arriving dis f) n
                (unborn_build u dis.time (arriving dis f) (irrefl dis.time) k))
        ]
      ]

  builds_of-disrupt :
      (s c : Scenario W) (dis : Disruption W)
      → disrupt s dis ≡ ok c
      → (new : List (Build W)) × (builds_for_disrup s dis ≡ ok new)
        × (c.builds ≡ (
            if ltb_ℤ dis.time (pos 0)
            then s.builds ++ new
            else map (mod_build_for_disrup dis) (s.builds ++ new)))
  unfolding disrupt
  builds_of-disrupt s c dis h =
      let (new, e, q) = ok->>= (builds_for_disrup s dis) _ c h in
      (new, e, ap (λ (c : Scenario W). c.builds) (sym (ok_eq _ c q)))

  -- A disruption at time zero or later ends every facility of its prototype that was built before it:
  -- none of these is alive when it comes, or later.
  pub disrupt_ends :
      (s c : Scenario W) (dis : Disruption W) (u : ℤ)
      → disrupt s dis ≡ ok c
      → ltb_ℤ dis.time (pos 0) ≡ false
      → leb_ℤ dis.time u ≡ true
      → keep (survives dis u) c.builds ≡ []
  disrupt_ends s c dis u h t k =
      let (new, _, e) = builds_of-disrupt s c dis h in
      rw (e, t) (keep-mod_build dis u (s.builds ++ new) t k)

  -- A disruption does not change the past: at each time before it, as many facilities of each prototype
  -- are alive as without it.
  pub disrupt_past :
      (s c : Scenario W) (dis : Disruption W) (u : ℤ) (p : String)
      → disrupt s dis ≡ ok c
      → ltb_ℤ u dis.time ≡ true
      → count_alive u (keep (λ (b : Build W). str_eq b.proto p) c.builds) (pos 0)
        ≡ count_alive u (keep (λ (b : Build W). str_eq b.proto p) s.builds) (pos 0)
  disrupt_past s c dis u p h k =
      let (new, e, q) = builds_of-disrupt s c dis h in
      let same : count_alive u (keep (λ (b : Build W). str_eq b.proto p) (s.builds ++ new)) (pos 0)
          ≡ count_alive u (keep (λ (b : Build W). str_eq b.proto p) s.builds) (pos 0) =
        count_alive-append u p s.builds new (pos 0) ∙ new_unborn s dis new u p _ e k in
      elim (Bool-cases (ltb_ℤ dis.time (pos 0))) [
        | inl t ↦ rw (q, t) same
        | inr t ↦ rw (q, t) (count_alive-map dis u p (s.builds ++ new) (pos 0) k ∙ same)
      ]
