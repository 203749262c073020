-- ===== src/Ban.antt =====
-- The bans of bin/varnishd/cache_ban.c. `bans` is `ban_head` from the newest ban, which is
-- `ban_start`, to the oldest; a ban and an object are known by a number, the place each has in
-- memory. Texts are built with room, and memory does not run out. `exec` is VRE_exec, whether the
-- pattern of the first text matches the second, and `compiles` whether VRE_compile takes a pattern.
pub mod Match
pub mod Parse
pub mod Refs
pub mod Destroy
pub mod Settle
pub mod Check
pub mod Lurker
pub mod Flags
pub mod Dups
mod Tests
use varnish.Prelude.{
  ℕ, zero, suc, ◌+◌, ◌-◌, Bool, true, false, not, ltb, ◌==◌, ◌&&◌, ◌||◌, if◌then◌else◌, Option,
  none, some, List, [], ◌∷◌, ◌++◌, map, length, drop,
}
use varnish.Prelude.Checked.{Checked, panic, ok, assert, ◌>>=◌, ◌>>◌}
use varnish.Http.{Text, Http}
use varnish.Vary.{eq_text}
use varnish.Ban.Match.{Test, run_tests}

-- `struct ban`: `gone` and `req` are the bits BAN_F_GONE and BAN_F_REQ, `text` is `test`.
pub record Ban : Type 0 where
  pub id : ℕ
  pub refcount : ℕ
  pub gone : Bool
  pub req : Bool
  pub tests : List Test
  pub objcore : List ℕ
  pub t0 : ℕ
  pub text : Text

-- The fields of `struct object` that bans use.
pub record Object : Type 0 where
  pub id : ℕ
  pub ban : Option ℕ
  pub ban_t : ℕ
  pub ttl : ℕ
  pub cacheable : Bool
  pub http : Http

-- Every ban at the place `b`: there is one at most.
unfoldable pub at_ban : ℕ → (Ban → Ban) → List Ban → List Ban
at_ban b f [] = []
at_ban b f (x ∷ xs) = if x.id == b then f x ∷ xs else x ∷ at_ban b f xs

unfoldable pub find_ban : ℕ → List Ban → Option Ban
find_ban b [] = none
find_ban b (x ∷ xs) = let rest = find_ban b xs in if x.id == b then some x else rest

-- VTAILQ_REMOVE
unfoldable pub remove_obj : ℕ → List ℕ → List ℕ
remove_obj o [] = []
remove_obj o (x ∷ xs) = if x == o then xs else x ∷ remove_obj o xs

-- A reference and a place on `objcore` for an object, and what takes them back.
abbrev pub hold : ℕ → Ban → Ban
hold o b = record b { refcount = b.refcount + 1; objcore = b.objcore ++ (o ∷ []) }

abbrev pub release : ℕ → Ban → Ban
release o b = record b { refcount = b.refcount - 1; objcore = remove_obj o b.objcore }

-- A round of the loop of BAN_Insert: a duplicate of the text is gone.
unfoldable pub mark_dup : Text → Ban → Ban
unfolding eq_text
mark_dup t b = if b.gone then b else if eq_text t b.text then record b { gone = true } else b

-- The loop of BAN_Insert from `bi` to the last ban.
unfoldable pub mark_dups : Text → List Ban → List Ban
unfolding mark_dup
mark_dups t [] = []
mark_dups t (b ∷ bs) = mark_dup t b ∷ mark_dups t bs

-- BAN_Insert of a ban whose text is complete, at a time; no other thread comes in between.
unfoldable pub insert : Bool → ℕ → Ban → List Ban → List Ban
unfolding mark_dups
insert purge_dups now b bans =
    let b1 = record b { t0 = now } in if purge_dups then b1 ∷ mark_dups b.text bans else b1 ∷ bans

unfoldable pub new_obj : List Ban → Object → Checked (List Ban × Object)
new_obj [] o = panic
new_obj (b ∷ bs) o = elim o.ban [
  | some _ ↦ panic
  | none ↦ ok (hold o.id b ∷ bs, record o { ban = some b.id; ban_t = b.t0 })
]

-- The last ban, unless it is the first, where no object needs it.
unfoldable pub drop_last : List Ban → List Ban × Option Ban
drop_last [] = ([], none)
drop_last (b ∷ []) = if b.refcount == 0 then ([], some b) else (b ∷ [], none)
drop_last (b ∷ c ∷ bs) = let (rest, last) = drop_last (c ∷ bs) in (b ∷ rest, last)

unfoldable pub check_last : List Ban → List Ban × Option Ban
unfolding drop_last
check_last [] = ([], none)
check_last (b ∷ bs) = let (rest, last) = drop_last bs in (b ∷ rest, last)

abbrev pub is_none {ℓ} : {A : Type ℓ} → Option A → Bool
is_none none = true
is_none (some a) = false

abbrev pub is_empty {ℓ} : {A : Type ℓ} → List A → Bool
is_empty [] = true
is_empty (x ∷ xs) = false

-- What BAN_Free asserts of a ban; it frees it.
unfoldable pub free : Option Ban → Checked (Unit {0})
free none = ok tt
free (some b) = assert (b.refcount == 0) >> assert (is_empty b.objcore)

-- BAN_DestroyObj of an object whose ban is at `i`
unfoldable pub destroy_at : List Ban → Object → ℕ → Checked (List Ban × Object)
unfolding find_ban at_ban check_last free
destroy_at bans o i = elim (find_ban i bans) [
  | none ↦ panic
  | some b ↦
      assert (ltb 0 b.refcount)
      >> (free (check_last (at_ban i (release o.id) bans)).1
          >> ok ((check_last (at_ban i (release o.id) bans)).0, record o { ban = none }))
]

unfoldable pub destroy_obj : List Ban → Object → Checked (List Ban × Object)
unfolding destroy_at
destroy_obj bans o = elim o.ban [ none ↦ ok (bans, o) | some i ↦ destroy_at bans o i ]

-- How the loop of ban_check_object ends: at the object's ban, at a ban that the object falls under,
-- or at one that cannot be tested without a request.
pub data Verdict : Type 0 where
  kept : Verdict
  banned : Verdict
  undecided : Verdict

-- What ban_check_object does after the loop, of an object whose ban at `i` is not `b0`, the first.
unfoldable pub settle : Verdict → Ban → List Ban → Object → ℕ → Bool × List Ban × Object
unfolding at_ban
settle undecided b0 bs o i = (false, b0 ∷ bs, o)
settle kept b0 bs o i =
    (false, hold o.id b0 ∷ at_ban i (release o.id) bs, record o { ban = some b0.id; ban_t = b0.t0 })
settle banned b0 bs o i =
    (true, b0 ∷ at_ban i (release o.id) bs, record o { ttl = 0; cacheable = false; ban = none })

module _ (exec : Text → Text → Bool) where
  -- The loop, which walks off the list where the object's ban is not on it.
  unfoldable pub scan : Bool → Http → Http → ℕ → List Ban → Checked Verdict
  unfolding run_tests
  scan has_req obj req stop [] = panic
  scan has_req obj req stop (b ∷ bs) = elim (b.id == stop) [
    | true ↦ ok kept
    | false ↦ elim b.gone [
      | true ↦ scan has_req obj req stop bs
      | false ↦ elim (not has_req && b.req) [
        | true ↦ ok undecided
        | false ↦
            run_tests exec obj req b.tests
            >>= (λ all. elim all [ true ↦ ok banned | false ↦ scan has_req obj req stop bs ])
      ]
    ]
  ]

  -- ban_check_object: the result, the bans and the object after it. (EXP_Rearm of a banned object is
  -- the caller's; objects of a persistent silo are not modelled.)
  unfoldable pub check_object : Bool → Http → List Ban → Object → Checked (Bool × List Ban × Object)
  unfolding scan settle
  check_object has_req req [] o = panic
  check_object has_req req (b0 ∷ bs) o = elim o.ban [
    | none ↦ panic
    | some i ↦ elim (b0.id == i) [
      | true ↦ ok (false, b0 ∷ bs, o)
      | false ↦ scan has_req o.http req i (b0 ∷ bs) >>= (λ v. ok (settle v b0 bs o i))
    ]
  ]

-- BAN_TailRef and BAN_Deref
unfoldable pub tail_ref : List Ban → Checked (ℕ × List Ban)
tail_ref [] = panic
tail_ref (b ∷ []) = ok (b.id, record b { refcount = b.refcount + 1 } ∷ [])
tail_ref (b ∷ c ∷ bs) = tail_ref (c ∷ bs) >>= (λ (i, rest). ok (i, b ∷ rest))

unfoldable pub deref : ℕ → List Ban → List Ban
unfolding at_ban
deref i bans = at_ban i (λ b. record b { refcount = b.refcount - 1 }) bans
