-- ===== src/Auth/Responses.antt =====
-- crates/auth/src/lib.rs: the answer to a handshake that is not admitted.
use multinode_controller.Base.{ℕ, ◌∷◌, [], ◌++◌, Option, some, Text, bytes}
use multinode_controller.Auth.Requests.{AuthFailure}

-- What the builder of the http crate is given.
pub record ErrorResponse : Type 0 where
  pub status : ℕ
  pub body : Option Text

-- It does not tell the failures apart.
unfoldable unauthorized_response : AuthFailure → ErrorResponse
unauthorized_response failure = record {
  status = 401;
  body = some (bytes "unauthorized" ++ 10 ∷ []);
}
