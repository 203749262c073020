-- ===== src/Ban/Tests.antt =====
-- Examples for bans: a ban of the URL /a on top of the first ban, to which the object 7 refers.
use varnish.Prelude.{
  ℕ, ◌==◌, ◌≡◌, ◌≢◌, refl, true, false, Bool, none, some, List, [], ◌∷◌, not, ◌&&◌, if◌then◌else◌,
  inl, arith,
}
use varnish.Prelude.Checked.{ok}
use varnish.Http.{Text, Http}
use varnish.Vary.{eq_text}
use varnish.Ban.{
  Ban, Object, Verdict, kept, banned, undecided, scan, check_object, settle, at_ban, find_ban,
  remove_obj, insert, mark_dups, mark_dup, destroy_obj, destroy_at, check_last, drop_last, free,
}
use varnish.Ban.Match.{Test, cond_url, cond_obj_http, run_tests, cond, cond_str}
use varnish.Ban.Parse.{add_test, find_pvar, pvars, source_of, parse_http, parse_cond, with_test}
use varnish.Ban.Check.{newer, is_listed, any_ban, scan_lem}
use varnish.Ban.Lurker.{scan-AllFlagged}
use varnish.Ban.Dups.{scan-insert}
use varnish.Ban.Refs.{AllHeld, IsLinked}
use varnish.Ban.Destroy.{destroy_obj-AllHeld}
use varnish.Ban.Settle.{Settled, check_object-Settled}

abbrev url_a : Text
url_a = b'/' ∷ b'a' ∷ []

abbrev http : Text → Http
http u = record {
  conds = false;
  status = 0;
  shd = 6;
  nhd = 5;
  hdf = [];
  hd = none ∷ some u ∷ none ∷ none ∷ none ∷ [];
}

abbrev is_a : Test
is_a = record {
  func = some cond_url;
  regexp = false;
  negated = false;
  re = [];
  dst = url_a;
  src = [];
}

abbrev ban_a : Ban
ban_a = record {
  id = 3;
  refcount = 0;
  gone = false;
  req = true;
  tests = is_a ∷ [];
  objcore = [];
  t0 = 30;
  text = url_a;
}

abbrev first_ban : Ban
first_ban = record {
  id = 1;
  refcount = 1;
  gone = true;
  req = false;
  tests = [];
  objcore = 7 ∷ [];
  t0 = 10;
  text = [];
}

abbrev bans : List Ban
bans = ban_a ∷ first_ban ∷ []

abbrev object : Object
object = record { id = 7; ban = some 1; ban_t = 10; ttl = 99; cacheable = true; http = http [] }

abbrev no_match : Text → Text → Bool
no_match p s = false

check_object_test :
    check_object no_match true (http url_a) bans object
    ≡ ok (
      true,
      ban_a ∷ record first_ban { refcount = 0; objcore = [] } ∷ [],
      record object { ban = none; ttl = 0; cacheable = false },
    )
unfolding check_object scan settle at_ban remove_obj run_tests cond cond_str eq_text
check_object_test = refl

-- Without a request the ban cannot be tested.
check_object_test_lurker :
    check_object no_match false (http url_a) bans object ≡ ok (false, bans, object)
unfolding check_object scan settle at_ban run_tests cond cond_str eq_text
check_object_test_lurker = refl

-- A longer word passes for the name that it starts with.
add_test_test :
    add_test
      (λ p. true)
      first_ban
      (b'r' ∷ b'e' ∷ b'q' ∷ b'.' ∷ b'u' ∷ b'r' ∷ b'l' ∷ b's' ∷ [])
      (b'=' ∷ b'=' ∷ [])
      url_a
    ≡ ok (
        some (record first_ban {
          req = true;
          tests = is_a ∷ [];
          text =
              b'r' ∷ b'e' ∷ b'q' ∷ b'.' ∷ b'u' ∷ b'r' ∷ b'l' ∷ b's' ∷ 32 ∷ b'=' ∷ b'=' ∷ 32 ∷ url_a;
        }))
unfolding add_test find_pvar pvars source_of parse_http parse_cond with_test eq_text
    varnish.Argv.Quote.quote varnish.Argv.Quote.needs_quote varnish.Ctype.is_graph
add_test_test = refl

scan_lem_example :
    scan no_match true (http []) (http url_a) 1 bans
    ≡ ok (if any_ban (λ b. not b.gone && (b.id == 3)) (newer 1 bans) then banned else kept)
unfolding newer is_listed run_tests cond cond_str eq_text
scan_lem_example = scan_lem no_match (http []) (http url_a) 1 (λ b. b.id == 3) bans refl (refl, tt)

-- One ban with a test of the object's headers, none of which it has.
abbrev ban_obj : Ban
ban_obj = record ban_a {
  req = false;
  tests = record is_a { func = some cond_obj_http; src = 2 ∷ b'A' ∷ b':' ∷ [] } ∷ [];
}

kept-ne : ◌≢◌ {A = Verdict} kept undecided
kept-ne e = cc

scan-AllFlagged_example :
    scan no_match true (http []) (http url_a) 1 (ban_obj ∷ first_ban ∷ []) ≡ ok kept
unfolding scan run_tests cond cond_str varnish.Http.get_hdr varnish.Http.find_hdr
    varnish.Http.find_from
scan-AllFlagged_example =
    scan-AllFlagged no_match (http []) (http []) (http url_a) 1 (ban_obj ∷ first_ban ∷ []) kept
      ((λ r. (refl, tt)), ((λ r. tt), tt)) refl kept-ne

scan-insert_example :
    scan no_match true (http []) (http url_a) 1 (insert true 40 (record ban_a { id = 4 }) bans)
    ≡ scan no_match true (http []) (http url_a) 1 (insert false 40 (record ban_a { id = 4 }) bans)
unfolding eq_text
scan-insert_example =
    scan-insert no_match true (http []) (http url_a) 1 40 (record ban_a { id = 4 }) bans
      ((λ e. (refl, refl)), ((λ e. absurd cc), tt)) refl refl

insert_test :
    insert true 40 (record ban_a { id = 4 }) bans
    ≡ record ban_a { id = 4; t0 = 40 } ∷ record ban_a { gone = true } ∷ first_ban ∷ []
unfolding insert mark_dups mark_dup eq_text
insert_test = refl

bans-AllHeld : AllHeld bans
bans-AllHeld = (omega arith, (omega arith, tt))

object-IsLinked : IsLinked bans 7 1
unfolding find_ban
object-IsLinked = (first_ban, refl, inl refl)

destroy_obj-AllHeld_example :
    (bans1 : List Ban) × (destroy_obj bans object ≡ ok (bans1, record object { ban = none }))
    × AllHeld bans1
    × ((x j : ℕ) → x ≢ 7 → IsLinked bans x j → IsLinked bans1 x j)
destroy_obj-AllHeld_example = destroy_obj-AllHeld bans object 1 bans-AllHeld refl object-IsLinked

-- The last ban goes with its last object.
destroy_obj_test : destroy_obj bans object ≡ ok (ban_a ∷ [], record object { ban = none })
unfolding destroy_obj destroy_at find_ban at_ban check_last drop_last free remove_obj
destroy_obj_test = refl

check_object-Settled_example :
    (r : Bool × List Ban × Object) × (check_object no_match true (http url_a) bans object ≡ ok r)
    × Settled bans 7 r
unfolding scan run_tests cond cond_str eq_text
check_object-Settled_example =
    check_object-Settled no_match true (http url_a) ban_a (first_ban ∷ []) object 1 banned
      bans-AllHeld refl object-IsLinked refl
