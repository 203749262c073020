-- ===== src/Director/Random/Served.antt =====
-- What vdi_random_getfd returns for a director that vrt_init made.
use varnish.Prelude.{
  ℕ, suc, ◌+◌, ◌^◌, ◌≤◌, ◌<◌, ◌≡◌, ◌⊎◌, inl, inr, refl, ap, Bool, true, false, Option, none, some,
  List, [], ◌∷◌, length, ltb, ltb→lt, lt→ltb, ◌==◌, if◌then◌else◌, arith,
}
use varnish.Prelude.Checked.{Checked, ok, panic, assert, ◌>>=◌, ◌>>◌}
use mathlib.Core.Path.{subst}
use native.Mathlib.Nat.{mod-lt}
use varnish.Director.Random.{
  Host, HealthC, Criteria, c_random, c_hash, c_client, Random, threshold, tries, canonical,
  digest_word, getfd, Entry, init, init_hosts,
}
use varnish.Director.Random.Refusal.{AllPositive, count-alive_length, Outcome}
use varnish.Director.Random.Retries.{tries_lem}
use varnish.Director.Random.Canonical.{fresh, Result, Stopped-Result, fresh-Every, canonical_lem}

-- What vrt_init makes where the VCL asks for no fewer retries than there are hosts.
pub record IsReady (vs : Random) : Type 0 where
  pub positive : AllPositive vs.hosts
  pub enough : length vs.hosts ≤ vs.retries

assert-then {ℓ} :
    {A : Type ℓ} (b : Bool) (k : Checked A) {r : A}
    → (assert b >> k) ≡ ok r
    → (b ≡ true) × (k ≡ ok r)
assert-then true k e = (refl, e)
assert-then false k e = absurd cc

bind-ok {ℓ κ} :
    {A : Type ℓ} {B : Type κ} (m : Checked A) (f : A → Checked B) {r : B}
    → (m >>= f) ≡ ok r
    → (a : A) × (m ≡ ok a) × (f a ≡ ok r)
bind-ok (ok a) f e = (a, refl, e)
bind-ok panic f e = absurd cc

ok_inj {ℓ} : {A : Type ℓ} {a b : A} → ok a ≡ ok b → a ≡ b
ok_inj e = ground arith

init_hosts_lem :
    (bp : ℕ → ℕ) (tot : ℕ) (members : List Entry) (r : List Host × ℕ)
    → init_hosts bp tot members ≡ ok r
    → AllPositive r.0 × (length r.0 ≡ length members)
unfolding init_hosts
init_hosts_lem bp tot [] r e = subst (λ x. AllPositive x.0 × (length x.0 ≡ 0)) (ok_inj e) (tt, refl)
init_hosts_lem bp tot (te ∷ members) r e =
    let (w, e1) = assert-then (ltb 0 te.weight) _ e in
    let (_, e2) = assert-then (ltb 0 (bp te.host)) _ e1 in
    let (x, e3, e4) = bind-ok (init_hosts bp (tot + te.weight) members) _ e2 in
    let (pos, len) = init_hosts_lem bp (tot + te.weight) members x e3 in
    subst (λ x. AllPositive x.0 × (length x.0 ≡ suc (length members))) (ok_inj e4)
      ((ltb→lt 0 te.weight w, pos), ap suc len)

init-IsReady :
    (bp : ℕ → ℕ) (criteria : Criteria) (retries : ℕ) (members : List Entry) (vs : Random)
    → (retries ≡ 0) ⊎ (length members ≤ retries)
    → init bp criteria retries members ≡ ok vs
    → IsReady vs
unfolding init
init-IsReady bp criteria retries members vs enough e =
    let (x, e1, e2) = bind-ok (init_hosts bp 0 members) _ e in
    let (pos, len) = init_hosts_lem bp 0 members x e1 in
    let le : length members ≤ (if retries == 0 then length members else retries) = elim enough [
      | inl z ↦ ground arith
      | inr le ↦ ground arith
    ] in
    subst IsReady (ok_inj e2) (record { positive = pos; enough = omega (arith, len, le) })

Criteria-cases : (x : Criteria) → (x ≡ c_random) ⊎ ((x ≡ c_hash) ⊎ (x ≡ c_client))
Criteria-cases c_random = inl refl
Criteria-cases c_hash = inr (inl refl)
Criteria-cases c_client = inr (inr refl)

digest_word-below : (hp : List ℕ) → digest_word hp < 2 ^ 32
unfolding digest_word
digest_word-below hp = mod-lt _ (omega arith)

module _ (healthy : ℕ → ℕ → Bool) (connect : ℕ → ℕ → Option ℕ) (random : ℕ → ℕ)
    (in_range : (k : ℕ) → random k < 2 ^ 31) where
  threshold-below :
      (x : Criteria) (u : ℕ)
      → u < 2 ^ 32
      → (j : ℕ)
      → (threshold healthy connect random x u j).0 < (threshold healthy connect random x u j).1
  unfolding threshold
  threshold-below c_random u lt j = in_range j
  threshold-below c_hash u lt j = lt
  threshold-below c_client u lt j = lt

  retries_lem :
      (vs : Random) (u : ℕ) (c : ℕ → HealthC)
      → IsReady vs
      → u < 2 ^ 32
      → Result healthy connect vs.hosts (none, c)
      → Outcome healthy connect vs.hosts (tries healthy connect random vs.retries 0 vs u c)
  retries_lem vs u c v lt (inl (vbe, serves, e)) = absurd cc
  retries_lem vs u c v lt (inr (e, all)) =
      let len = count-alive_length c 0 vs.hosts in
      tries_lem healthy connect random vs.retries 0 vs u c v.positive
        (threshold-below vs.criteria u lt) all (omega (arith, len, v.enough))

  hashed_lem :
      (vs : Random) (u : ℕ) (x : Option ℕ × (ℕ → HealthC))
      → IsReady vs
      → u < 2 ^ 32
      → Result healthy connect vs.hosts x
      → Outcome healthy connect vs.hosts (
          assert (ltb u (2 ^ 32)) >> elim x.0 [
            | some vbe ↦ ok (some vbe)
            | none ↦ tries healthy connect random vs.retries 0 vs u x.1
          ])
  hashed_lem vs u (some b, c) v lt (inl (vbe, serves, e)) =
      rw (lt→ltb u (2 ^ 32) lt) (inl (vbe, serves, ap ok e))
  hashed_lem vs u (some b, c) v lt (inr (e, all)) = absurd cc
  hashed_lem vs u (none, c) v lt result = rw (lt→ltb u (2 ^ 32) lt) (retries_lem vs u c v lt result)

  served :
      (sha256 : List ℕ → List ℕ) (addr digest : List ℕ) (vs : Random)
      → IsReady vs
      → Outcome healthy connect vs.hosts (getfd healthy connect random sha256 addr digest vs)
  unfolding getfd
  served sha256 addr digest vs v = elim (Criteria-cases vs.criteria) [
    | inl e ↦
        rw (getfd, e)
          (retries_lem vs 0 fresh v (omega arith)
            (inr (refl, fresh-Every healthy connect 0 vs.hosts)))
    | inr (inl e) ↦ rw (getfd, e) (hashed (digest_word digest) (digest_word-below digest))
    | inr (inr e) ↦
        rw (getfd, e) (hashed (digest_word (sha256 addr)) (digest_word-below (sha256 addr)))
  ]
    where
      hashed :
          (u : ℕ)
          → u < 2 ^ 32
          → let x = canonical healthy connect u vs.tot_weight 0 0 vs.hosts fresh in
            Outcome healthy connect vs.hosts (
              assert (ltb u (2 ^ 32)) >> elim x.0 [
                | some vbe ↦ ok (some vbe)
                | none ↦ tries healthy connect random vs.retries 0 vs u x.1
              ])
      hashed u lt = hashed_lem vs u _ v lt (
          Stopped-Result healthy connect vs.hosts _
            (canonical_lem healthy connect u vs.tot_weight vs.hosts 0 0 fresh))

  -- Where the VCL gives no number of retries, or one that is not below the number of members, and
  -- random(3) keeps below 2^31, a director of any criterion that vrt_init made asserts nothing that
  -- fails and returns a connection of a host that is healthy; or it returns none, and then every
  -- host is not healthy or gives no connection.
  pub init-getfd :
      (bp : ℕ → ℕ) (criteria : Criteria) (retries : ℕ) (members : List Entry) (vs : Random)
      (sha256 : List ℕ → List ℕ) (addr digest : List ℕ)
      → (retries ≡ 0) ⊎ (length members ≤ retries)
      → init bp criteria retries members ≡ ok vs
      → Outcome healthy connect vs.hosts (getfd healthy connect random sha256 addr digest vs)
  init-getfd bp criteria retries members vs sha256 addr digest enough e =
      served sha256 addr digest vs (init-IsReady bp criteria retries members vs enough e)
