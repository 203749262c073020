-- ===== src/Ban/Parse.antt =====
-- BAN_AddTest: three words become a test of a ban, and a part of its text.
use varnish.Prelude.{
  ◌+◌, Bool, true, false, ltb, ◌||◌, if◌then◌else◌, Option, none, some, List, [], ◌∷◌, ◌++◌, length,
  drop, take,
}
use varnish.Prelude.Checked.{Checked, ok, assert, ◌>>=◌, ◌>>◌}
use varnish.Http.{Text}
use varnish.Vary.{eq_text}
use varnish.Argv.Quote.{quote}
use varnish.Ban.{Ban, is_empty}
use varnish.Ban.Match.{Test, Cond, cond_url, cond_req_http, cond_obj_http}

-- ~ and = and !
abbrev like : Text
like = b'~' ∷ []

abbrev unlike : Text
unlike = b'!' ∷ b'~' ∷ []

abbrev equal : Text
equal = b'=' ∷ b'=' ∷ []

abbrev unequal : Text
unequal = b'!' ∷ b'=' ∷ []

abbrev req_url : Text
req_url = b'r' ∷ b'e' ∷ b'q' ∷ b'.' ∷ b'u' ∷ b'r' ∷ b'l' ∷ []

abbrev req_http : Text
req_http = b'r' ∷ b'e' ∷ b'q' ∷ b'.' ∷ b'h' ∷ b't' ∷ b't' ∷ b'p' ∷ b'.' ∷ []

abbrev obj_http : Text
obj_http = b'o' ∷ b'b' ∷ b'j' ∷ b'.' ∷ b'h' ∷ b't' ∷ b't' ∷ b'p' ∷ b'.' ∷ []

-- A row of `pvars`; `req` and `http` are PVAR_REQ and PVAR_HTTP.
pub record Pvar : Type 0 where
  pub name : Text
  pub req : Bool
  pub http : Bool
  pub func : Cond

unfoldable pub pvars : List Pvar
pvars =
    record { name = req_url; req = true; http = false; func = cond_url }
    ∷ record { name = req_http; req = true; http = true; func = cond_req_http }
    ∷ record { name = obj_http; req = false; http = true; func = cond_obj_http }
    ∷ []

-- The first row whose name `a1` starts with: !strncmp(a1, name, strlen(name)).
unfoldable pub find_pvar : Text → List Pvar → Option Pvar
unfolding eq_text
find_pvar a1 [] = none
find_pvar a1 (pv ∷ pvs) =
    let rest = find_pvar a1 pvs in
    if eq_text (take (length pv.name) a1) pv.name then some pv else rest

-- The name of a header as http_GetHdr takes it; `char` is signed.
unfoldable pub parse_http : Text → Checked Text
parse_http a1 = assert (ltb (length a1) 127) >> ok ((length a1 + 1) ∷ a1 ++ (b':' ∷ []))

abbrev pub empty_test : Test
empty_test = record { func = none; regexp = false; negated = false; re = []; dst = []; src = [] }

-- The condition of a test, none for a pattern that does not compile or a word that is no condition.
unfoldable pub parse_cond : (Text → Bool) → Text → Text → Option Test
unfolding eq_text
parse_cond compiles a2 a3 =
    if eq_text a2 like
    then if compiles a3 then some (record empty_test { regexp = true; re = a3 }) else none
    else if eq_text a2 unlike
    then if compiles a3
      then some (record empty_test { regexp = true; negated = true; re = a3 })
      else none
    else if eq_text a2 equal
    then some (record empty_test { dst = a3 })
    else if eq_text a2 unequal
    then some (record empty_test { negated = true; dst = a3 })
    else none

-- The ban with one test more, and its words behind its text.
unfoldable pub with_test : Ban → Test → Pvar → Text → Text → Text → Text → Ban
with_test b bt pv src a1 a2 a3 = record b {
  req = b.req || pv.req;
  tests = b.tests ++ (record bt { func = some pv.func; src = src } ∷ []);
  text =
      b.text
      ++ ((if is_empty b.tests then [] else 32 ∷ b'&' ∷ b'&' ∷ 32 ∷ [])
          ++ (a1 ++ 32 ∷ a2 ++ 32 ∷ quote a3));
}

unfoldable pub source_of : Pvar → Text → Checked Text
unfolding parse_http
source_of pv a1 = if pv.http then parse_http (drop (length pv.name) a1) else ok []

-- BAN_AddTest: none is -1; the caller frees the ban then.
unfoldable pub add_test : (Text → Bool) → Ban → Text → Text → Text → Checked (Option Ban)
unfolding find_pvar source_of parse_cond with_test
add_test compiles b a1 a2 a3 = elim (parse_cond compiles a2 a3) [
  | none ↦ ok none
  | some bt ↦ elim (find_pvar a1 pvars) [
    | none ↦ ok none
    | some pv ↦ source_of pv a1 >>= (λ src. ok (some (with_test b bt pv src a1 a2 a3)))
  ]
]
