-- ===== src/Dashboard/Session.antt =====
-- internal/dashboard/session.go: a signed cookie instead of a password in every request.
pub mod Laws
use Prim.Native.String.{◌++◌}
use nimbuscore.Prelude.{
  ℕ, ℤ, pos, ltb_ℤ, add64, String, Bool, true, false, not, ◌&&◌, ◌||◌, List, Option, none, some,
  atoi, cut_dot, has_prefix, ◌==◌, if◌then◌else◌, eqb,
}
use nimbuscore.Controller.Schedule.{decimal}

pub data Response : Type 0 where
  status : ℕ → Response
  redirect : String → Response
  page : Response

-- The cookie that a response sets, if any: its value, or its removal.
pub data SetCookie : Type 0 where
  no_cookie removed_cookie : SetCookie
  new_cookie : String → SetCookie

-- sessionTTL in seconds
abbrev pub session_ttl : ℤ
session_ttl = pos 86400

-- hmac.Equal
unfoldable pub same_bytes : List ℕ → List ℕ → Bool
same_bytes List.[] List.[] = true
same_bytes List.[] (List.◌∷◌ y b) = false
same_bytes (List.◌∷◌ x a) List.[] = false
same_bytes (List.◌∷◌ x a) (List.◌∷◌ y b) = eqb x y && same_bytes a b

-- `mac` is HMAC-SHA256 under the secret of this process; `encode` and `decode` are base64url.
module _ (mac : String → List ℕ) (encode : List ℕ → String)
    (decode : String → Option (List ℕ)) where
  -- issueToken at the time `now`, in seconds
  unfoldable pub issue_token : ℤ → String
  issue_token now =
      let expiry = decimal (add64 now session_ttl) in expiry ++ "." ++ encode (mac expiry)

  abbrev pub unexpired : ℤ → Option ℤ → Bool
  unexpired now none = false
  unexpired now (some expiry) = ltb_ℤ now expiry

  abbrev pub signed : ℤ → String → Option (List ℕ) → Bool
  signed now expiry none = false
  signed now expiry (some sig) =
      if not (same_bytes sig (mac expiry)) then false else unexpired now (atoi expiry)

  abbrev pub parted : ℤ → Option (String × String) → Bool
  parted now none = false
  parted now (some (expiry, sig)) = signed now expiry (decode sig)

  -- validToken
  unfoldable pub valid_token : ℤ → String → Bool
  unfolding cut_dot same_bytes
  valid_token now token = parted now (cut_dot token)

  -- isAuthenticated, for the cookie of the request
  abbrev pub is_authenticated : ℤ → Option String → Bool
  is_authenticated now none = false
  is_authenticated now (some token) = valid_token now token

  -- requireSession, before a handler that answers with `next`
  unfoldable pub require_session : ℤ → Option String → String → Response → Response
  unfolding valid_token
  require_session now cookie path next =
      if is_authenticated now cookie
      then next
      else if has_prefix path "/api/"
      then status 401
      else redirect "/login"

  -- handleLogin, for the credentials of a body that is decoded
  unfoldable pub handle_login :
      String → String → ℤ → String → Option (String × String) → Response × SetCookie
  unfolding issue_token
  handle_login username password now method credentials =
      if not (method == "POST") then (status 405, no_cookie) else elim credentials [
        | none ↦ (status 400, no_cookie)
        | some (user, pass) ↦
            if not (user == username) || not (pass == password)
            then (status 401, no_cookie)
            else (status 204, new_cookie (issue_token now))
      ]

  -- handleLoginPage, where `found` says whether the page can be read
  unfoldable pub handle_login_page : ℤ → Option String → Bool → Response
  unfolding valid_token
  handle_login_page now cookie found =
      if is_authenticated now cookie then redirect "/" else if found then page else status 500

-- handleLogout
unfoldable pub handle_logout : String → Response × SetCookie
handle_logout method =
    if not (method == "POST") then (status 405, no_cookie) else (status 204, removed_cookie)
