-- ===== src/Access.antt =====
-- src/auth/mod.rs and src/apps/mod.rs: the roles of a session, and the route of a query through
-- the registered apps. An app is the crate's object; the model counts them only by their list.
use heimdallr.Common.{Bool, false, List, [], ◌∷◌, ◌++◌, Option, none, some, any}
use heimdallr.Common.Text.{Text, codes, text_eq, trim_end_matches}

pub record AuthSession : Type 0 where
  pub user : Text
  pub roles : List Text
  pub totp_verified : Bool
  pub oidc_token : Option Text

-- `AuthSession::new`
unfoldable pub new_session : Text → AuthSession
new_session user = record {
  user = user;
  roles = codes "dns_reader" ∷ [];
  totp_verified = false;
  oidc_token = none;
}

-- `has_role`
unfoldable pub has_role : AuthSession → Text → Bool
unfolding text_eq
has_role session role = any (λ r. text_eq r role) session.roles

-- `is_authorized_for_toggle`
unfoldable pub is_authorized_for_toggle : AuthSession → Text → Bool
unfolding has_role
is_authorized_for_toggle session required_role = has_role session required_role

module _ {App : Type 0} where
  -- `AppRegistry::new`
  unfoldable pub new_registry : List App
  new_registry = []

  -- `register`
  unfoldable pub register : List App → App → List App
  register apps app = apps ++ app ∷ []

  route : List App → Text → Option Text
  unfolding trim_end_matches
  route [] qname = none
  route (app ∷ apps) qname = some (trim_end_matches b'.' qname)

  -- `app_route_override`, which does not look at the client
  unfoldable pub app_route_override : Option (List App) → Text → Option Text
  unfolding route
  app_route_override none qname = none
  app_route_override (some apps) qname = route apps qname
