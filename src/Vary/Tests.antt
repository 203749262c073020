-- ===== src/Vary/Tests.antt =====
-- A response that varies on two headers of the request, and a request with a value of 65535 bytes.
use varnish.Prelude.{
  ℕ, ◌^◌, ◌<◌, ◌≡◌, ◌≢◌, ◌↔◌, refl, Bool, true, false, Option, none, some, List, [], ◌∷◌, arith,
  ◌==◌, if◌then◌else◌, length, length-append, length-replicate, replicate,
}
use varnish.Prelude.Checked.{Checked, ok, panic, ◌>>=◌}
use varnish.Ctype.{is_space}
use varnish.Vct.{is_sp}
use varnish.Http.{Http, Text, get_hdr, strlen}
use varnish.Vsb.{
  Vsb, new, printf, format, settle, mark, bcat, make_room, clear, finish, text, len, delete,
}
use varnish.Vsb.Inv.{IsMalloc}
use varnish.Vary.Made.{Stored}
use varnish.Vary.{create, vary_match, trim}
use varnish.Vary.Spec.{Lists, last, more, value, encode}
use varnish.Vary.Match.{SameValues, match-create, match-create_65535}

-- "\005Vary:"
abbrev h_vary : Text
h_vary = 5 ∷ b'V' ∷ b'a' ∷ b'r' ∷ b'y' ∷ b':' ∷ []

-- "Vary: a ,b"
abbrev resp : Http
resp = record {
  conds = false;
  status = 200;
  shd = 6;
  nhd = 6;
  hdf = [];
  hd =
      none
      ∷ none
      ∷ none
      ∷ none
      ∷ none
      ∷ some (b'v' ∷ b'a' ∷ b'r' ∷ b'y' ∷ b':' ∷ b' ' ∷ b'a' ∷ b' ' ∷ b',' ∷ b'b' ∷ [])
      ∷ [];
}

abbrev request : Text → Http
request v = record {
  conds = false;
  status = 0;
  shd = 6;
  nhd = 6;
  hdf = [];
  hd = none ∷ none ∷ none ∷ none ∷ none ∷ some (b'A' ∷ b':' ∷ v) ∷ [];
}

vary_value : get_hdr resp h_vary ≡ ok (some (b'a' ∷ b' ' ∷ b',' ∷ b'b' ∷ []))
unfolding get_hdr strlen varnish.Http.find_hdr varnish.Http.named varnish.Http.eq_ncase
    varnish.Http.lower varnish.Http.skip_sp is_sp
vary_value = refl

two_names : Lists (b'a' ∷ b' ' ∷ b',' ∷ b'b' ∷ []) ((b'a' ∷ []) ∷ (b'b' ∷ []) ∷ [])
unfolding is_space
two_names =
    more [] b'a' [] (b' ' ∷ []) (b'b' ∷ []) refl tt (refl, refl, tt) (refl, tt)
      (last [] b'b' [] [] refl tt (refl, refl, tt) tt)

abbrev plain : Http
plain = request (b' ' ∷ b'x' ∷ b' ' ∷ [])

plain-value : (value plain (b'a' ∷ []) ≡ some (b'x' ∷ [])) × (value plain (b'b' ∷ []) ≡ none)
unfolding varnish.Http.find_hdr varnish.Http.named varnish.Http.eq_ncase varnish.Http.lower
    varnish.Http.skip_sp is_sp trim
plain-value = (refl, refl)

abbrev heap : ℕ → Option (List ℕ)
heap n = some (replicate n 0)

heap-IsMalloc : IsMalloc heap
heap-IsMalloc n b h = ground (arith, length-replicate {A = ℕ} n 0)

heap-memory : (n : ℕ) → heap n ≢ none
heap-memory n e = cc

-- an allocator with blocks of 16 bytes only
abbrev scarce : ℕ → Option (List ℕ)
scarce n = if n == 16 then some (replicate 16 0) else none

abbrev stored : Option Vsb → Checked (List ℕ)
stored none = panic
stored (some sb) = text sb

create-plain :
    (create heap h_vary plain resp >>= stored)
    ≡ ok (2 ∷ b'a' ∷ b':' ∷ 0 ∷ 0 ∷ 1 ∷ b'x' ∷ 2 ∷ b'b' ∷ b':' ∷ 0 ∷ 255 ∷ 255 ∷ 0 ∷ 0 ∷ 0 ∷ [])
unfolding create get_hdr strlen varnish.Http.find_hdr varnish.Http.named varnish.Http.eq_ncase
    varnish.Http.lower varnish.Http.skip_sp is_sp varnish.Vary.span_name varnish.Vary.skip_space
    trim is_space new varnish.Vsb.Size.extend_size printf format settle mark bcat varnish.Vsb.append
    make_room clear finish text len delete
create-plain = refl

-- Where malloc fails the string is cut, and no assertion tells.
create_cut :
    (create scarce h_vary (request (replicate 12 b'x')) resp >>= stored)
    ≡ ok (
        2 ∷ b'a' ∷ b':' ∷ 0 ∷ 0 ∷ 12 ∷ b'x' ∷ b'x' ∷ b'x' ∷ b'x' ∷ b'x' ∷ b'x' ∷ b'x' ∷ b'x' ∷ b'x'
        ∷ 0 ∷ [])
unfolding create get_hdr strlen varnish.Http.find_hdr varnish.Http.named varnish.Http.eq_ncase
    varnish.Http.lower varnish.Http.skip_sp is_sp varnish.Vary.span_name varnish.Vary.skip_space
    trim is_space new varnish.Vsb.Size.extend_size printf format settle mark bcat varnish.Vsb.append
    make_room varnish.Vsb.extend clear finish text len delete
create_cut = refl

encode-plain : length (encode plain ((b'a' ∷ []) ∷ (b'b' ∷ []) ∷ [])) < 2 ^ 29
unfolding encode
encode-plain = rw (plain-value.0, plain-value.1) (omega arith)

match-create_example :
    (sb : Vsb) × (bytes : Text) × (result : Bool) × (create heap h_vary plain resp ≡ ok (some sb))
    × Stored sb bytes
    × (vary_match (request (b'x' ∷ [])) bytes ≡ ok result)
    × ((result ≡ true) ↔ SameValues (request (b'x' ∷ [])) plain ((b'a' ∷ []) ∷ (b'b' ∷ []) ∷ []))
match-create_example =
    match-create heap heap-IsMalloc heap-memory h_vary (request (b'x' ∷ [])) plain resp vary_value
      two_names (omega arith) (rw (plain-value.0, plain-value.1) (omega arith)) encode-plain

big_text : Text
big_text = replicate 65535 b'x'

big : Http
unfolding big_text
big = request big_text

big-value : value big (b'a' ∷ []) ≡ some big_text
unfolding big varnish.Http.find_hdr varnish.Http.named varnish.Http.eq_ncase varnish.Http.lower
    varnish.Http.skip_sp is_sp trim
big-value = refl

big-value-none : value big (b'b' ∷ []) ≡ none
unfolding big varnish.Http.find_hdr varnish.Http.named varnish.Http.eq_ncase varnish.Http.lower
    varnish.Http.skip_sp is_sp trim
big-value-none = refl

length-big_text : length big_text ≡ 65535
unfolding big_text
length-big_text = length-replicate {A = ℕ} 65535 b'x'

encode-big : length (encode big ((b'a' ∷ []) ∷ (b'b' ∷ []) ∷ [])) < 2 ^ 29
unfolding encode
encode-big =
    rw (big-value, big-value-none)
      (omega
        (arith, length-big_text, length-append big_text (2 ∷ b'b' ∷ b':' ∷ 0 ∷ 255 ∷ 255 ∷ [])))

match-create_65535_example :
    (sb : Vsb) × (bytes : Text) × (create heap h_vary big resp ≡ ok (some sb))
    × Stored sb bytes
    × (vary_match big bytes ≡ ok false)
match-create_65535_example =
    match-create_65535 heap heap-IsMalloc heap-memory h_vary big resp big_text vary_value two_names
      (omega arith) (rw (big-value, big-value-none) (omega (arith, length-big_text))) encode-big
      big-value length-big_text
