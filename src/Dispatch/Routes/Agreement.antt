-- ===== src/Dispatch/Routes/Agreement.antt =====
-- getStaticFilePath and getCrudEntityPath look at fewer routes than getRequestType, and in another
-- order: their loops against its loops.
use native.Mathlib.Decide.{dec_lt}
use dinner_is_servered.Prelude.{
  ◌<◌, ◌≡◌, ◌≢◌, inl, inr, sym, ap, ◌∙◌, Bytes, arith, begins_with-prefixes, All,
}
use dinner_is_servered.Runtime.{ServerPaths}
use dinner_is_servered.Runtime.Dictionary.{keys}
use dinner_is_servered.Dispatch.Request.{
  RequestType, static, echo, none_found, crud, health, sleep, app,
}
use dinner_is_servered.Dispatch.Longest.{Longest, nothing, scan}
use dinner_is_servered.Dispatch.Longest.Changes.{Changed, scan-cases, scan_unchanged, scan_between}
use dinner_is_servered.Dispatch.Routes.{longest_match, longest_static, longest_crud}

-- No echo path is also a CRUD path.
abbrev pub Disjoint : ServerPaths → Type 0
Disjoint paths = All (λ p. All (λ q. q ≢ p) (keys paths.crud)) paths.echo

module _ (paths : ServerPaths) (result : Bytes) where
  abbrev after_static : Longest
  after_static = scan result static (keys paths.static) nothing

  abbrev after_crud : Longest
  after_crud = scan result crud (keys paths.crud) after_static

  abbrev after_echo : Longest
  after_echo = scan result echo paths.echo after_crud

  -- A choice of a type that comes before the echo routes is made before them.
  chosen_early :
      (t : RequestType)
      → echo ≢ t
      → health ≢ t
      → sleep ≢ t
      → app ≢ t
      → (longest_match paths result).type ≡ t
      → (longest_match paths result ≡ after_crud) × (after_echo ≡ after_crud)
  unfolding longest_match
  chosen_early t n_echo n_health n_sleep n_app e6 =
      let after_health = scan result health paths.health after_echo in
      let after_sleep = scan result sleep paths.sleep after_health in
      let p6 = scan_unchanged result app paths.app after_sleep t n_app e6 in
      let e5 : after_sleep.type ≡ t = ap (λ (l : Longest). l.type) (sym p6) ∙ e6 in
      let p5 = scan_unchanged result sleep paths.sleep after_health t n_sleep e5 in
      let e4 : after_health.type ≡ t = ap (λ (l : Longest). l.type) (sym p5) ∙ e5 in
      let p4 = scan_unchanged result health paths.health after_echo t n_health e4 in
      let e3 : after_echo.type ≡ t = ap (λ (l : Longest). l.type) (sym p4) ∙ e4 in
      let p3 = scan_unchanged result echo paths.echo after_crud t n_echo e3 in
      (p6 ∙ p5 ∙ p4 ∙ p3, p3)

  -- For a static request getStaticFilePath chooses the path that getRequestType chose.
  pub longest_static-agrees :
      (longest_match paths result).type ≡ static
      → longest_static paths result ≡ longest_match paths result
  unfolding longest_static
  longest_static-agrees h =
      let (p, q) = chosen_early static (λ z. cc) (λ z. cc) (λ z. cc) (λ z. cc) h in
      let r : after_crud ≡ after_static =
        scan_unchanged result crud (keys paths.crud) after_static static (λ z. cc)
          (ap (λ (l : Longest). l.type) (sym p) ∙ h) in
      ap (scan result echo paths.echo) (sym r) ∙ q ∙ sym p

  after_static-ne-crud : after_static.type ≢ crud
  after_static-ne-crud e = elim (scan-cases result static (keys paths.static) nothing) [
    | inl same ↦ let z : none_found ≡ crud = ap (λ (l : Longest). l.type) (sym same) ∙ e in cc z
    | inr c ↦ let z : static ≡ crud = sym c.type_is ∙ e in cc z
  ]

  module _ (disjoint : Disjoint paths) where
    -- An echo choice that is made too early is shorter than the CRUD choice.
    echo_shorter :
        Changed result crud (keys paths.crud) after_static after_crud
        → after_echo ≡ after_crud
        → after_crud.type ≡ crud
        → Changed result echo paths.echo after_static (scan result echo paths.echo after_static)
        → (scan result echo paths.echo after_static).size < after_crud.size
    echo_shorter c q t e = elim (dec_lt early.size after_crud.size) [
      | yes h ↦ h
      | no n ↦ absurd (elim (dec_lt after_crud.size early.size) [
        | yes k ↦ different k
        | no m ↦ apart (
            begins_with-prefixes result _ _ c.matched e.matched
              (sym c.size_is ∙ equal_sizes n m ∙ e.size_is))
      ])
    ]
      where
        early : Longest
        early = scan result echo paths.echo after_static

        equal_sizes :
            ¬ (early.size < after_crud.size)
            → ¬ (after_crud.size < early.size)
            → after_crud.size ≡ early.size
        equal_sizes n m = omega arith

        different : after_crud.size < early.size → ⊥
        different k =
            let same =
              scan_between result echo paths.echo after_static after_crud (omega (arith, c.longer))
                k in
            let z : echo ≡ crud = sym e.type_is ∙ ap (λ (l : Longest). l.type) (sym same ∙ q) ∙ t in
            cc z

        apart : after_crud.path ≢ early.path
        apart =
            c.listed (λ q. q ≢ early.path)
              (e.listed (λ p. All (λ q. q ≢ p) (keys paths.crud)) disjoint)

  -- For a CRUD request getCrudEntityPath chooses the path that getRequestType chose.
  pub longest_crud-agrees :
      Disjoint paths
      → (longest_match paths result).type ≡ crud
      → longest_crud paths result ≡ longest_match paths result
  unfolding longest_crud
  longest_crud-agrees disjoint h =
      let (p, q) = chosen_early crud (λ z. cc) (λ z. cc) (λ z. cc) (λ z. cc) h in
      let t : after_crud.type ≡ crud = ap (λ (l : Longest). l.type) (sym p) ∙ h in
      elim (scan-cases result crud (keys paths.crud) after_static) [
        | inl same ↦ absurd (after_static-ne-crud (ap (λ (l : Longest). l.type) (sym same) ∙ t))
        | inr c ↦ elim (scan-cases result echo paths.echo after_static) [
          | inl kept ↦ ap (scan result crud (keys paths.crud)) kept ∙ sym p
          | inr e ↦
              scan_between result crud (keys paths.crud) after_static _ (omega (arith, e.longer))
                (echo_shorter disjoint c q t e)
              ∙ sym p
        ]
      ]
