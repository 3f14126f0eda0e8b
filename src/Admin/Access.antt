-- ===== src/Admin/Access.antt =====
-- Who gets to see an admin page.
use rpc_node_gateway.Prelude.{
  ◌≡◌, ◌⊎◌, inl, inr, String, Bool, Option, some, str_eq, Assoc, Option-cases, Bool-cases, arith,
}
use Prim.Native.Char.{Char}
use rpc_node_gateway.Config.{Config}
use rpc_node_gateway.Model.{Token}
use rpc_node_gateway.AdminJwt.{Claims, Jwt}
use rpc_node_gateway.AdminJwt.Store.{Store}
use rpc_node_gateway.AdminJwt.Rotator.{Validator, validate}
use rpc_node_gateway.Admin.{PageRequest, unauthorized, Desk, extract_bearer, show_page, serve_page}

module _ (lower : Char → Char) (decode : String → Option Config) {S : Type 0} (store : Store S)
    (jwt : Jwt) where
  -- A page is shown for accepted claims, or nothing happens.
  pub serve_page-cases :
      (v : Validator) (has_path : Bool) (tokens : Assoc Token) (s : S) (r : PageRequest) (d : Desk)
      → (serve_page lower decode store jwt (some v) has_path tokens s r d ≡ (unauthorized, d))
        ⊎ ((claims : Claims) × (validate store jwt v r.parsed_at r.checked_at r.store_fails
                (extract_bearer r.authorization r.access_token)
                s
              ≡ some claims)
            × (serve_page lower decode store jwt (some v) has_path tokens s r d
                ≡ show_page lower decode has_path tokens r.page d))
  unfolding serve_page
  serve_page-cases v has_path tokens s r d =
      elim (Bool-cases (str_eq (extract_bearer r.authorization r.access_token) "")) [
        | inl missing ↦ inl (ground arith)
        | inr given ↦
            elim (Option-cases (
              validate store jwt v r.parsed_at r.checked_at r.store_fails
                (extract_bearer r.authorization r.access_token) s)) [
                  | inl refused ↦ inl (ground arith)
                  | inr (claims, accepted) ↦ inr (claims, accepted, ground arith)
                ]
      ]
