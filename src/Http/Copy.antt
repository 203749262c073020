-- ===== src/Http/Copy.antt =====
-- http_FilterFields of bin/varnishd/cache_http.c copies the headers that are not skipped, in order.
use varnish.Prelude.{
  ℕ, zero, suc, ◌+◌, ◌-◌, ◌%◌, ◌^◌, ◌≤◌, ◌<◌, ◌≡◌, refl, ap, sym, ◌∙◌, true, false, none, some,
  List, [], ◌∷◌, ◌++◌, ltb, length, take, get_or, set, arith, Bool-cases, inl, inr, length-set,
  take-set_last, append-nil,
}
use mathlib.Core.List.{append_assoc}
use mathlib.Core.Path.{subst}
use varnish.Prelude.Checked.{Checked, ok, panic}
use varnish.Http.{Field, Http, hdr_first}
use varnish.Http.Filter.{
  is_skipped, is_some, copy_header, filter_from, filter_fields, len, estimate_from, estimate_ws,
}
use varnish.Http.Room.{skips, skips_lem, select}

-- The table `to'` is `to` with the headers `fs` behind those it has.
pub record Extends (to : Http) (fs : List Field) (to' : Http) : Type 0 where
  pub headers : take to'.nhd to'.hd ≡ take to.nhd to.hd ++ fs
  pub nhd : to'.nhd ≡ to.nhd + length fs
  pub shd : to'.shd ≡ to.shd
  pub status : to'.status ≡ to.status
  pub cells : length to'.hd ≡ length to.hd

Extends-none : (to : Http) → Extends to [] to
Extends-none to = record {
  headers = sym (append-nil (take to.nhd to.hd));
  nhd = omega arith;
  shd = refl;
  status = refl;
  cells = refl;
}

abbrev added : Http → Field → Http
added to f = record to { hd = set to.hd to.nhd f; hdf = set to.hdf to.nhd 0; nhd = to.nhd + 1 }

Extends-added :
    (to to' : Http) (f : Field) (fs : List Field)
    → to.nhd < length to.hd
    → Extends (added to f) fs to'
    → Extends to (f ∷ fs) to'
Extends-added to to' f fs room x = record {
  headers =
      x.headers
      ∙ (ap (λ l. l ++ fs) (take-set_last to.hd to.nhd f room)
          ∙ append_assoc (take to.nhd to.hd) (f ∷ []) fs);
  nhd = x.nhd ∙ omega arith;
  shd = x.shd;
  status = x.status;
  cells = x.cells ∙ length-set to.hd to.nhd f;
}

copy_header-added :
    (to fm : Http) (lost n : ℕ)
    → n < fm.shd
    → is_some (get_or fm.hd n none) ≡ true
    → to.nhd < to.shd
    → copy_header (to, lost) fm n ≡ ok (added to (get_or fm.hd n none), lost)
unfolding copy_header
copy_header-added to fm lost n lt present room =
    let a : ltb n fm.shd ≡ true = ground arith in
    let b : ltb to.nhd to.shd ≡ true = ground arith in rw (a, present, b) refl

skips-is_some : (how : ℕ) (f : Field) (flags : ℕ) → skips how f flags ≡ false → is_some f ≡ true
skips-is_some how none flags h = sym h
skips-is_some how (some t) flags h = refl

select_skip :
    (how n u : ℕ) (fm : Http)
    → skips how (get_or fm.hd u none) (get_or fm.hdf u 0) ≡ true
    → select how (suc n) u fm ≡ select how n (u + 1) fm
select_skip how n u fm e = rw (e) refl

select_copy :
    (how n u : ℕ) (fm : Http)
    → skips how (get_or fm.hd u none) (get_or fm.hdf u 0) ≡ false
    → select how (suc n) u fm ≡ get_or fm.hd u none ∷ select how n (u + 1) fm
select_copy how n u fm e = rw (e) refl

pub filter_from_lem :
    (n u : ℕ) (fm : Http) (how : ℕ) (to : Http) (lost : ℕ)
    → u + n ≤ fm.shd
    → to.nhd + length (select how n u fm) ≤ to.shd
    → to.shd ≤ length to.hd
    → (to' : Http) × (filter_from n u fm how (to, lost) ≡ ok (to', lost))
      × Extends to (select how n u fm) to'
unfolding filter_from
filter_from_lem zero u fm how to lost le room cells = (to, refl, Extends-none to)
filter_from_lem (suc n) u fm how to lost le room cells =
    let f = get_or fm.hd u none in
    let flags = get_or fm.hdf u 0 in
    elim (Bool-cases (skips how f flags)) [
      | inl e ↦
          let run : is_skipped how f flags ≡ ok true = skips_lem how f flags ∙ ap ok e in
          let fits : to.nhd + length (select how n (u + 1) fm) ≤ to.shd = ground arith in
          let (to', step, x) = filter_from_lem n (u + 1) fm how to lost (omega arith) fits cells in
          (to', rw (run) step, subst (λ fs. Extends to fs to') (sym (select_skip how n u fm e)) x)
      | inr e ↦
          let run : is_skipped how f flags ≡ ok false = skips_lem how f flags ∙ ap ok e in
          let fits : to.nhd + suc (length (select how n (u + 1) fm)) ≤ to.shd = ground arith in
          let copied =
            copy_header-added to fm lost u (omega arith) (skips-is_some how f flags e)
              (omega arith) in
          let cells' : to.shd ≤ length (added to f).hd = omega (arith, length-set to.hd to.nhd f) in
          let (to', step, x) =
            filter_from_lem n (u + 1) fm how (added to f) lost (omega arith) (omega arith) cells' in
          (
            to',
            rw (run, copied) step,
            subst (λ fs. Extends to fs to') (sym (select_copy how n u fm e))
                (Extends-added to to' f (select how n (u + 1) fm) (omega arith) x),
          )
    ]

-- the bytes of the headers, each with a NUL
abbrev pub bytes : List Field → ℕ
bytes [] = 0
bytes (f ∷ fs) = len f + 1 + bytes fs

estimate_from-select :
    (n u : ℕ) (fm : Http) (how l nhd : ℕ)
    → l < 2 ^ 32
    → estimate_from n u fm how (l, nhd)
      ≡ ok ((l + bytes (select how n u fm)) % 2 ^ 32, nhd + length (select how n u fm))
unfolding estimate_from
estimate_from-select zero u fm how l nhd lt =
    let a : nhd + 0 ≡ nhd = omega arith in
    let b : (l + 0) % 2 ^ 32 ≡ l = omega arith in rw (a, b) refl
estimate_from-select (suc n) u fm how l nhd lt =
    let f = get_or fm.hd u none in
    let flags = get_or fm.hdf u 0 in
    let rest = select how n (u + 1) fm in
    elim (Bool-cases (skips how f flags)) [
      | inl e ↦
          let run : is_skipped how f flags ≡ ok true = skips_lem how f flags ∙ ap ok e in
          rw (run, select_skip how n u fm e) (estimate_from-select n (u + 1) fm how l nhd lt)
      | inr e ↦
          let run : is_skipped how f flags ≡ ok false = skips_lem how f flags ∙ ap ok e in
          let step =
            estimate_from-select n (u + 1) fm how ((l + (len f + 1)) % 2 ^ 32) (nhd + 1)
              (omega arith) in
          let sum : nhd + 1 + length rest ≡ nhd + suc (length rest) = omega arith in
          let total : ((l + (len f + 1)) % 2 ^ 32 + bytes rest) % 2 ^ 32
              ≡ (l + (len f + 1 + bytes rest)) % 2 ^ 32 =
            omega arith in
          rw (run, select_copy how n u fm e) (step ∙ ap ok (pair total sum))
    ]
  where
    pair : {a b c d : ℕ} → a ≡ b → c ≡ d → ◌≡◌ {A = ℕ × ℕ} (a, c) (b, d)
    pair p q = rw (p, q) refl

-- http_EstimateWS for a message and an operation: no assertion fails, and the result counts the
-- entries of the table that are neither empty, nor filtered by Connection, nor suppressed for the
-- operation: their bytes with a NUL for each, modulo 2 ^ 32, and their number, with five more for
-- the first line.
pub estimate_ws_lem :
    (fm : Http) (how : ℕ)
    → estimate_ws fm how
      ≡ ok (bytes (select how fm.nhd 0 fm) % 2 ^ 32, hdr_first + length (select how fm.nhd 0 fm))
unfolding estimate_ws
estimate_ws_lem fm how =
    estimate_from-select fm.nhd 0 fm how 0 hdr_first (omega arith)
    ∙ ap (λ b. ok (b % 2 ^ 32, hdr_first + length (select how fm.nhd 0 fm))) (omega arith)

length-select :
    (how k n u : ℕ) (fm : Http)
    → length (select how n (u + k) fm) ≤ length (select how (k + n) u fm)
length-select how zero n u fm =
    let a : u + 0 ≡ u = omega arith in let b : 0 + n ≡ n = omega arith in rw (a, b) (omega arith)
length-select how (suc k) n u fm =
    let a : u + suc k ≡ u + 1 + k = omega arith in
    let b : suc k + n ≡ suc (k + n) = omega arith in
    let rest = length-select how k n (u + 1) fm in rw (a, b) (ground arith)

-- the number of headers in a result of estimate_ws
headers_of : Checked (ℕ × ℕ) → ℕ
headers_of panic = 0
headers_of (ok (l, nhd)) = nhd

estimate_ws-select :
    (fm : Http) (how l nhd : ℕ)
    → estimate_ws fm how ≡ ok (l, nhd)
    → nhd ≡ hdr_first + length (select how fm.nhd 0 fm)
unfolding headers_of
estimate_ws-select fm how l nhd est = ap headers_of (sym est ∙ estimate_ws_lem fm how)

-- Where http_EstimateWS for a message and an operation gives `nhd`, and the table `to` has `nhd`
-- entries or more: http_FilterFields of the message for the operation fails no assertion, loses no
-- header, and leaves in `to`, in their order, the headers that are neither empty, nor filtered by
-- Connection, nor suppressed for the operation, with the message's status.
pub filter_fields_lem :
    (to fm : Http) (lost how l nhd : ℕ)
    → fm.nhd ≤ fm.shd
    → hdr_first ≤ fm.nhd
    → to.shd ≤ length to.hd
    → estimate_ws fm how ≡ ok (l, nhd)
    → nhd ≤ to.shd
    → (to' : Http) × (filter_fields to lost fm how ≡ ok (to', lost))
      × (take to'.nhd to'.hd ≡ take hdr_first to.hd ++ select how (fm.nhd - hdr_first) hdr_first fm)
      × (to'.status ≡ fm.status)
      × (to'.shd ≡ to.shd)
unfolding filter_fields
filter_fields_lem to fm lost how l nhd valid first cells est room =
    let estimated = estimate_ws-select fm how l nhd est in
    let n : ℕ = fm.nhd - hdr_first in
    let more : length (select how n (0 + hdr_first) fm) ≤ length (select how (hdr_first + n) 0 fm) =
      length-select how hdr_first n 0 fm in
    let all : hdr_first + n ≡ fm.nhd = omega arith in
    let more' : length (select how n hdr_first fm) ≤ length (select how fm.nhd 0 fm) =
      subst (λ m. length (select how n hdr_first fm) ≤ length (select how m 0 fm)) all more in
    let (to', step, x) =
      filter_from_lem n hdr_first fm how (record to { nhd = hdr_first; status = fm.status }) lost
        (omega arith) (omega arith) cells in
    (to', step, x.headers, x.status, x.shd)
