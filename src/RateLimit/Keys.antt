-- ===== src/RateLimit/Keys.antt =====
-- The keys of internal/store/redis.go under which the buckets are kept.
use text.Mathlib.TextLemmas.{append_assoc}
use rpc_node_gateway.Prelude.{
  ◌≡◌, ◌≢◌, refl, sym, ap, ◌∙◌, String, str_append, has_prefix-append, has_prefix-differ,
}
use rpc_node_gateway.RateLimit.{rate_limit_token_key, rate_limit_token_ip_key}

-- The bucket of a token is never the bucket of a token and an address.
pub rate_limit_token_key_ne :
    (token other ip : String) → rate_limit_token_key token ≢ rate_limit_token_ip_key other ip
unfolding rate_limit_token_key rate_limit_token_ip_key
rate_limit_token_key_ne token other ip e = cc (
  has_prefix-append "rpc:ratelimit:token:" token,
  has_prefix-differ "rpc:ratelimit:tokenip:" "rpc:ratelimit:token:"
      (str_append other (str_append ":" ip)) refl,
)

-- A colon in a token is not told apart from the one before the address: the token `a` with the
-- address `b:ip`, which a request header can name, shares the bucket of the token `a:b` with the
-- address `ip`.
pub rate_limit_token_ip_key_shared :
    (a b ip : String)
    → rate_limit_token_ip_key a (str_append b (str_append ":" ip))
      ≡ rate_limit_token_ip_key (str_append a (str_append ":" b)) ip
unfolding rate_limit_token_ip_key
rate_limit_token_ip_key_shared a b ip = ap (str_append "rpc:ratelimit:tokenip:") (
    ap (str_append a) (sym (append_assoc ":" b (str_append ":" ip)))
    ∙ sym (append_assoc a (str_append ":" b) (str_append ":" ip)))
