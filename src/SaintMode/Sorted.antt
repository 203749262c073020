-- ===== src/SaintMode/Sorted.antt =====
-- The list of troubles of bin/varnishd/cache_backend.c is sorted, the last to time out first, so that
-- vbe_Healthy may stop at the first that has timed out.
use varnish.Prelude.{
  ℕ, ◌+◌, ◌-◌, ◌^◌, ◌≤◌, ◌<◌, ◌≡◌, refl, Bool, true, false, not, List, [], ◌∷◌, length, ltb, leb,
  ◌==◌, ◌&&◌, if◌then◌else◌, arith,
}
use varnish.Prelude.Checked.{ok}
use varnish.SaintMode.{Trouble, Backend, vbe_healthy, insert_trouble, beresp_saintmode}
use varnish.SaintMode.Verdict.{live, expire_first, troubled, scan_lem}

-- No timeout is later than `b`, nor than one before it.
abbrev pub falls : ℕ → List Trouble → Bool
falls b [] = true
falls b (tr ∷ rest) = leb tr.timeout b && falls tr.timeout rest

abbrev pub is_sorted : List Trouble → Bool
is_sorted [] = true
is_sorted (tr ∷ rest) = falls tr.timeout rest

-- the troubles that have not timed out
abbrev pub unexpired : ℕ → List Trouble → List Trouble
unexpired now [] = []
unexpired now (tr ∷ rest) =
    if ltb tr.timeout now then unexpired now rest else tr ∷ unexpired now rest

falls-unexpired :
    (now b : ℕ) (trs : List Trouble) → falls b trs ≡ true → b < now → unexpired now trs ≡ []
falls-unexpired now b [] h lt = refl
falls-unexpired now b (tr ∷ rest) h lt =
    let ih = falls-unexpired now tr.timeout rest in ground (arith, ih)

falls-live :
    (now b : ℕ) (trs : List Trouble) → falls b trs ≡ true → live now trs ≡ unexpired now trs
falls-live now b [] h = refl
falls-live now b (tr ∷ rest) h =
    let ih = falls-live now tr.timeout rest in
    let none = falls-unexpired now tr.timeout rest in ground (arith, ih, none)

falls-le : (a b : ℕ) (trs : List Trouble) → falls a trs ≡ true → a ≤ b → falls b trs ≡ true
falls-le a b [] h le = refl
falls-le a b (tr ∷ rest) h le = ground arith

falls-expire_first :
    (now b : ℕ) (trs : List Trouble) → falls b trs ≡ true → falls b (expire_first now trs) ≡ true
falls-expire_first now b [] h = refl
falls-expire_first now b (tr ∷ rest) h =
    let ih = falls-expire_first now tr.timeout rest in
    let le = falls-le tr.timeout b rest in ground (arith, ih, le)

falls-insert_trouble :
    (new : Trouble) (b : ℕ) (trs : List Trouble)
    → falls b trs ≡ true
    → new.timeout ≤ b
    → falls b (insert_trouble new trs) ≡ true
unfolding insert_trouble
falls-insert_trouble new b [] h le = ground arith
falls-insert_trouble new b (tr ∷ rest) h le =
    let ih = falls-insert_trouble new tr.timeout rest in ground (arith, ih)

unexpired-expire_first :
    (now : ℕ) (trs : List Trouble) → unexpired now (expire_first now trs) ≡ unexpired now trs
unexpired-expire_first now [] = refl
unexpired-expire_first now (tr ∷ rest) =
    let ih = unexpired-expire_first now rest in ground (arith, ih)

is_sorted-live :
    (now : ℕ) (trs : List Trouble) → is_sorted trs ≡ true → live now trs ≡ unexpired now trs
is_sorted-live now [] h = refl
is_sorted-live now (tr ∷ rest) h =
    let ih = falls-live now tr.timeout rest h in
    let none = falls-unexpired now tr.timeout rest h in ground (arith, ih, none)

falls-is_sorted : (b : ℕ) (trs : List Trouble) → falls b trs ≡ true → is_sorted trs ≡ true
falls-is_sorted b [] h = refl
falls-is_sorted b (tr ∷ rest) h = ground arith

is_sorted-expire_first :
    (now : ℕ) (trs : List Trouble) → is_sorted trs ≡ true → is_sorted (expire_first now trs) ≡ true
is_sorted-expire_first now [] h = refl
is_sorted-expire_first now (tr ∷ rest) h =
    let a = falls-is_sorted tr.timeout rest h in
    let b = falls-expire_first now tr.timeout rest h in ground (arith, a, b)

is_sorted-insert_trouble :
    (new : Trouble) (trs : List Trouble)
    → is_sorted trs ≡ true
    → is_sorted (insert_trouble new trs) ≡ true
unfolding insert_trouble
is_sorted-insert_trouble new [] h = refl
is_sorted-insert_trouble new (tr ∷ rest) h =
    let b = falls-insert_trouble new tr.timeout rest h in ground (arith, b)

insert_trouble-troubled :
    (new : Trouble) (now : ℕ) (trs : List Trouble)
    → now ≤ new.timeout
    → troubled new.target (unexpired now (insert_trouble new trs)) ≡ true
unfolding insert_trouble
insert_trouble-troubled new now [] le = ground arith
insert_trouble-troubled new now (tr ∷ rest) le =
    let ih = insert_trouble-troubled new now rest le in ground (arith, ih)

length-insert_trouble :
    (new : Trouble) (trs : List Trouble) → length (insert_trouble new trs) ≡ length trs + 1
unfolding insert_trouble
length-insert_trouble new [] = refl
length-insert_trouble new (tr ∷ rest) =
    let ih = length-insert_trouble new rest in ground (arith, ih)

abbrev pub threshold : ℕ → Backend → ℕ
threshold param backend =
    if backend.saintmode_threshold == 2 ^ 32 - 1 then param else backend.saintmode_threshold

-- vbe_Healthy for a backend that polling holds healthy and whose list of troubles is sorted, with
-- saint mode on (a threshold that is not 0) and an object (a target that is not 0): the backend is
-- healthy for the object exactly when no trouble that has not timed out is with the object, and
-- fewer of those than the threshold are on the list. The list stays sorted, and loses no trouble
-- that has not timed out.
pub vbe_healthy_lem :
    (param now target : ℕ) (backend : Backend)
    → backend.healthy ≡ true
    → is_sorted backend.troublelist ≡ true
    → (threshold param backend == 0) ≡ false
    → (target == 0) ≡ false
    → ((vbe_healthy param now target backend).0 ≡ (
        not (troubled target (unexpired now backend.troublelist))
        && ltb (length (unexpired now backend.troublelist)) (threshold param backend)))
      × (is_sorted (vbe_healthy param now target backend).1.troublelist ≡ true)
      × (unexpired now (vbe_healthy param now target backend).1.troublelist
          ≡ unexpired now backend.troublelist)
unfolding vbe_healthy
vbe_healthy_lem param now target backend up sorted on object =
    let run = scan_lem now target (threshold param backend) 0 backend.troublelist in
    let live = is_sorted-live now backend.troublelist sorted in
    let stays = is_sorted-expire_first now backend.troublelist sorted in
    let kept = unexpired-expire_first now backend.troublelist in
    rw (up, vbe_healthy, on, object, run, live) (ground arith)

-- VRT_l_beresp_saintmode for a session with an object and a time that is not 0: no assertion fails;
-- the list stays sorted, and if the trouble that is put on it has not timed out `now`, the object
-- is troubled from then on.
pub beresp_saintmode_lem :
    (t_req objhead a now : ℕ) (backend : Backend)
    → (objhead == 0) ≡ false
    → 0 < a
    → is_sorted backend.troublelist ≡ true
    → now ≤ t_req + a
    → (b : Backend) × (beresp_saintmode t_req objhead a backend ≡ ok b)
      × (is_sorted b.troublelist ≡ true)
      × (troubled objhead (unexpired now b.troublelist) ≡ true)
      × (length b.troublelist ≡ length backend.troublelist + 1)
unfolding beresp_saintmode
beresp_saintmode_lem t_req objhead a now backend object pos sorted live =
    let new : Trouble = record { target = objhead; timeout = t_req + a } in
    let held : ltb 0 a ≡ true = ground arith in
    (
      record backend { troublelist = insert_trouble new backend.troublelist },
      rw (object, held) refl,
      is_sorted-insert_trouble new backend.troublelist sorted,
      insert_trouble-troubled new now backend.troublelist live,
      length-insert_trouble new backend.troublelist,
    )
