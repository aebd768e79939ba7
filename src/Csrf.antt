-- ===== src/Csrf.antt =====
-- internal/web/csrf.go: which requests the middleware against cross-site requests lets through.
-- `url.Parse` and `strings.EqualFold` are parameters; a cookie of a request is `none` where it has none.
pub mod Admission
mod Tests
use hooks.Prelude.{
  String, Bool, true, false, not, ◌||◌, Option, none, some, ◌==◌, ◌>>=◌, if◌then◌else◌, Result, ok,
  err, string_eq,
}
use Prim.Native.String as S

-- `strings.TrimSuffix`
unfoldable pub trim_suffix : String → String → String
trim_suffix suffix S.[] = S.[]
trim_suffix suffix (S.◌∷◌ c s) =
    let rest = trim_suffix suffix s in if S.◌∷◌ c s == suffix then S.[] else S.◌∷◌ c rest

-- `url.Parse` to the host that it finds, `none` for an error; `strings.EqualFold`
pub record Urls : Type 0 where
  pub host_of : String → Option String
  pub equal_fold : String → String → Bool

-- `form_token` is the field of the form, empty where the form has none.
pub record Request : Type 0 where
  pub method : String
  pub host : String
  pub origin : String
  pub referer : String
  pub session_cookie : Option String
  pub csrf_cookie : Option String
  pub header_token : String
  pub form_token : String

pub record CsrfConfig : Type 0 where
  pub expected_host : String
  pub skip_func : Option (Request → Bool)

pub data CsrfError : Type 0 where
  missing_origin origin_mismatch origin_null missing_csrf missing_token mismatched_token : CsrfError

unfoldable pub is_safe_method : String → Bool
is_safe_method m = m == "GET" || m == "HEAD" || m == "OPTIONS"

unfoldable pub hosts_match : (String → String → Bool) → String → String → Bool
unfolding trim_suffix
hosts_match equal_fold a b =
    equal_fold (trim_suffix ":443" (trim_suffix ":80" a)) (trim_suffix ":443" (trim_suffix ":80" b))

-- `checkOrigin` on the URL of a header, with the error for one that names no host
unfoldable pub check_host : Urls → String → CsrfError → Option String → Result CsrfError Unit
unfolding hosts_match
check_host urls want unnamed none = err unnamed
check_host urls want unnamed (some h) =
    if h == ""
    then err unnamed
    else if not (hosts_match urls.equal_fold h want)
    then err origin_mismatch
    else ok tt

abbrev pub want_host : String → Request → String
want_host expected r = if expected == "" then r.host else expected

unfoldable pub check_origin : Urls → Request → String → Result CsrfError Unit
unfolding check_host
check_origin urls r expected =
    if r.origin == "null"
    then err origin_null
    else if not (r.origin == "")
    then check_host urls (want_host expected r) origin_mismatch (urls.host_of r.origin)
    else if r.referer == ""
    then err missing_origin
    else check_host urls (want_host expected r) missing_origin (urls.host_of r.referer)

-- The token of the header, or else the one of the form
abbrev pub sent_token : Request → String
sent_token r = if r.header_token == "" then r.form_token else r.header_token

-- `checkToken` on the cookie
unfoldable pub check_cookie : Request → Option String → Result CsrfError Unit
check_cookie r none = err missing_csrf
check_cookie r (some c) =
    if c == ""
    then err missing_csrf
    else if sent_token r == ""
    then err missing_token
    else if not (sent_token r == c)
    then err mismatched_token
    else ok tt

unfoldable pub check_token : Request → Result CsrfError Unit
unfolding check_cookie
check_token r = check_cookie r r.csrf_cookie

abbrev pub skips : Option (Request → Bool) → Request → Bool
skips none r = false
skips (some f) r = f r

abbrev pub has_session : Option String → Bool
has_session none = false
has_session (some c) = not (c == "")

-- The middleware: what `next` answers, or the error of an answer 403
unfoldable pub middleware :
    {A : Type 0} → Urls → CsrfConfig → (Request → A) → Request → Result CsrfError A
unfolding is_safe_method check_origin check_token
middleware urls cfg next r =
    if is_safe_method r.method
    then ok (next r)
    else if skips cfg.skip_func r
    then ok (next r)
    else if not (has_session r.session_cookie)
    then ok (next r)
    else check_origin urls r cfg.expected_host >>= λ _. check_token r >>= λ _. ok (next r)
