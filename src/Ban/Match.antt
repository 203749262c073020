-- ===== src/Ban/Match.antt =====
-- The tests of a ban: ban_cond_str and what BAN_AddTest makes of three words.
use varnish.Prelude.{
  Bool, true, false, not, if◌then◌else◌, Option, none, some, List, [], ◌∷◌, get_elem?,
}
use varnish.Prelude.Checked.{Checked, panic, ok, ◌>>=◌}
use varnish.Http.{Text, Http, get_hdr}
use varnish.Vary.{eq_text}

pub data Cond : Type 0 where
  cond_url : Cond
  cond_req_http : Cond
  cond_obj_http : Cond

-- `struct ban_test`: `regexp` and `negated` are BAN_T_REGEXP and BAN_T_NOT, `re` the pattern
pub record Test : Type 0 where
  pub func : Option Cond
  pub regexp : Bool
  pub negated : Bool
  pub re : Text
  pub dst : Text
  pub src : Text

module _ (exec : Text → Text → Bool) where
  -- ban_cond_str, whose 0 is `true`: the test matches
  unfoldable pub cond_str : Test → Option Text → Bool
  unfolding eq_text
  cond_str bt none = bt.negated
  cond_str bt (some p) =
      let i = if bt.regexp then exec bt.re p else eq_text bt.dst p in
      if bt.negated then not i else i

  -- hd[HTTP_HDR_URL].b
  abbrev pub url : Http → Option Text
  url hp = elim (get_elem? hp.hd 1) [ none ↦ none | some f ↦ f ]

  -- ban_cond_url, ban_cond_req_http and ban_cond_obj_http
  unfoldable pub cond : Cond → Test → Http → Http → Checked Bool
  unfolding cond_str get_hdr
  cond cond_url bt obj req = ok (cond_str bt (url req))
  cond cond_req_http bt obj req = get_hdr req bt.src >>= (λ s. ok (cond_str bt s))
  cond cond_obj_http bt obj req = get_hdr obj bt.src >>= (λ s. ok (cond_str bt s))

  -- The inner loop of ban_check_object: whether all tests match. A test without a function is NULL.
  unfoldable pub run_tests : Http → Http → List Test → Checked Bool
  unfolding cond
  run_tests obj req [] = ok true
  run_tests obj req (bt ∷ bts) = elim bt.func [
    | none ↦ panic
    | some f ↦
        cond f bt obj req >>= (λ m. elim m [ true ↦ run_tests obj req bts | false ↦ ok false ])
  ]
