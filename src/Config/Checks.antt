-- ===== src/Config/Checks.antt =====
-- src/product_config.rs: when the checks of a configuration succeed.
use smart_fec_tunnel.Base.{
  ◌<◌, ◌≡◌, refl, ◌↔◌, Bool, true, false, ◌&&◌, Bool-cases, ◌⊎◌, inl, inr, List, [], ◌∷◌, Result,
  ok, err, ◌>>◌, bail_if, arith,
}
use smart_fec_tunnel.Config.{
  ModuleId, tuic, masque, dns_doq, all_modules, dependencies, Modules, ProductConfig, ConfigError,
  Profile, is_laboratory, check_experimental, check_module, check_dependencies,
  validate_scalar_fields, configured, resolve_modules, conflicting_transports,
}

-- Every member of the list is resolved.
abbrev pub AllOn : Modules → List ModuleId → Type 0
AllOn r [] = Unit {0}
AllOn r (d ∷ ds) = (r d ≡ true) × AllOn r ds

-- Every resolved module of the list has its dependencies resolved.
abbrev pub AllClosed : Modules → List ModuleId → Type 0
AllClosed r [] = Unit {0}
AllClosed r (m ∷ ms) = (r m ≡ true → AllOn r (dependencies m)) × AllClosed r ms

-- A step and what follows it succeed together.
seq_iff :
    {A : Type 0} (a : Result ConfigError (Unit {0})) (k : Result ConfigError A) (x : A)
    → ((a >> k) ≡ ok x) ↔ ((a ≡ ok tt) × (k ≡ ok x))
seq_iff (ok tt) k x = (λ h. (refl, h), λ h. h.1)
seq_iff (err e) k x = (λ h. cc, λ h. cc (h.0))

bail_iff : (b : Bool) (e : ConfigError) → (bail_if b e ≡ ok tt) ↔ (b ≡ false)
bail_iff b e = ground arith

check_module_iff :
    (m : ModuleId) (r : Modules) (ds : List ModuleId) → (check_module m r ds ≡ ok tt) ↔ AllOn r ds
unfolding check_module
check_module_iff m r [] = (λ h. tt, λ h. refl)
check_module_iff m r (d ∷ ds) = ground (arith, check_module_iff m r ds)

check_dependencies_iff :
    (r : Modules) (ms : List ModuleId) → (check_dependencies r ms ≡ ok tt) ↔ AllClosed r ms
unfolding check_dependencies
check_dependencies_iff r [] = (λ h. tt, λ h. refl)
check_dependencies_iff r (m ∷ ms) = elim (Bool-cases (r m)) [
  | inl on ↦
      let both = seq_iff (check_module m r (dependencies m)) (check_dependencies r ms) tt in
      let one = check_module_iff m r (dependencies m) in
      let rest = check_dependencies_iff r ms in
      rw on (
        λ h. let p = both.0 h in (λ o. one.0 (p.0), rest.0 (p.1)),
        λ c. both.1 (one.1 (c.0 refl), rest.1 (c.1)),
      )
  | inr off ↦
      let rest = check_dependencies_iff r ms in rw off (λ h. (λ o. cc, rest.0 h), λ c. rest.1 (c.1))
]

pub validate_scalar_fields_iff :
    (c : ProductConfig)
    → (validate_scalar_fields c ≡ ok tt) ↔ (
        (c.schema_version ≡ 1)
        × (0 < c.server.bandwidth_mbps)
        × (0 < c.server.public_tcp_port)
        × (0 < c.server.public_udp_port))
unfolding validate_scalar_fields
validate_scalar_fields_iff c = ground arith

pub check_experimental_iff :
    (p : Profile) (r : Modules)
    → (check_experimental p r (masque ∷ dns_doq ∷ []) ≡ ok tt)
      ↔ ((r masque ≡ true → is_laboratory p ≡ true) × (r dns_doq ≡ true → is_laboratory p ≡ true))
unfolding check_experimental
check_experimental_iff p r = ground arith

-- A result is this value or an error.
abbrev pub Yields : {A : Type 0} → Result ConfigError A → A → Type 0
Yields r x = (r ≡ ok x) ⊎ ((e : ConfigError) × (r ≡ err e))

Yields-seq :
    {A : Type 0} (a : Result ConfigError (Unit {0})) (k : Result ConfigError A) (x : A)
    → Yields k x
    → Yields (a >> k) x
Yields-seq (ok tt) k x y = y
Yields-seq (err e) k x y = inr (e, refl)

pub resolve_modules_cases : (c : ProductConfig) → Yields (resolve_modules c) (configured c)
unfolding resolve_modules
resolve_modules_cases c =
    let r = configured c in
    Yields-seq (validate_scalar_fields c) _ r (
      Yields-seq (bail_if (r tuic && r masque) conflicting_transports) _ r (
        Yields-seq (check_experimental c.profile r (masque ∷ dns_doq ∷ [])) _ r
          (Yields-seq (check_dependencies r all_modules) (ok r) r (inl refl))))

pub not_both : (a b : Bool) → (a && b ≡ false) ↔ (a ≡ true → b ≡ false)
not_both true true = (λ h. λ e. h, λ f. f refl)
not_both true false = (λ h. λ e. refl, λ f. refl)
not_both false b = (λ h. λ e. cc, λ f. refl)

-- The four checks, read off one by one.
pub resolve-configured :
    (c : ProductConfig)
    → (resolve_modules c ≡ ok (configured c)) ↔ (
        (validate_scalar_fields c ≡ ok tt)
        × ((configured c tuic && configured c masque) ≡ false)
        × (check_experimental c.profile (configured c) (masque ∷ dns_doq ∷ []) ≡ ok tt)
        × AllClosed (configured c) all_modules)
unfolding resolve_modules
resolve-configured c =
    let r = configured c in
    let transports : Bool = r tuic && r masque in
    let third_check = check_experimental c.profile r (masque ∷ dns_doq ∷ []) in
    let last_check = check_dependencies r all_modules >> ok r in
    let last = seq_iff (check_dependencies r all_modules) (ok r) r in
    let third = seq_iff third_check last_check r in
    let second =
      seq_iff (bail_if transports conflicting_transports) (third_check >> last_check) r in
    let first =
      seq_iff (validate_scalar_fields c)
        (bail_if transports conflicting_transports >> (third_check >> last_check)) r in
    let bail = bail_iff transports conflicting_transports in
    let closed = check_dependencies_iff r all_modules in
    (
      λ h.
          let (a, b) = first.0 h in
          let (t, e) = second.0 b in
          let (x, d) = third.0 e in (a, bail.0 t, x, closed.0 (last.0 d).0),
      λ k. first.1 (k.0, second.1 (bail.1 k.1, third.1 (k.2, last.1 (closed.1 k.3, refl)))),
    )
