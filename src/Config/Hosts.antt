-- ===== src/Config/Hosts.antt =====
-- The hosts that a configuration binds (internal/config/config.go). `lower` is Go's `unicode.ToLower`.
use rpc_node_gateway.Prelude.{
  ◌≡◌, refl, String, Bool, true, false, not, ◌&&◌, ◌||◌, List, [], ◌∷◌, ◌++◌, ◌==◌, if◌then◌else◌,
  str_eq, eq_iff, trim_space, trim_prefix, arith,
}
use Prim.Native.Char.{Char, code}

-- `strings.TrimSuffix` of a slash.
unfoldable pub trim_slash : String → String
trim_slash String.[] = ""
trim_slash (String.◌∷◌ c s) =
    let rest = trim_slash s in if code c == 47 && str_eq s "" then "" else String.◌∷◌ c rest

-- The text up to the first colon.
unfoldable pub before_colon : String → String
before_colon String.[] = ""
before_colon (String.◌∷◌ c s) =
    let rest = before_colon s in if code c == 58 then "" else String.◌∷◌ c rest

-- `d == host` for one of the domains.
abbrev pub contains : List String → String → Bool
contains [] host = false
contains (d ∷ ds) host = str_eq d host || contains ds host

module _ (lower : Char → Char) where
  -- `strings.ToLower`
  unfoldable pub to_lower : String → String
  to_lower String.[] = ""
  to_lower (String.◌∷◌ c s) = String.◌∷◌ (lower c) (to_lower s)

  unfoldable pub normalize_host : String → String
  normalize_host host =
      let h = trim_space (to_lower host) in
      if str_eq h ""
      then ""
      else before_colon (trim_slash (trim_prefix (trim_prefix h "http://") "https://"))

  unfoldable pub host_allowed : List String → String → Bool
  host_allowed [] host = true
  host_allowed (d ∷ ds) host = contains (d ∷ ds) (normalize_host host)

  -- The loop over the domains at the end of `applyDefaults`; the domains that it has `seen` are those
  -- that it has kept.
  unfoldable pub normalize_loop : List String → List String → List String
  normalize_loop seen [] = seen
  normalize_loop seen (d ∷ ds) =
      let d' = normalize_host d in
      normalize_loop (if str_eq d' "" || contains seen d' then seen else seen ++ d' ∷ []) ds

  -- Some domain of the list stands for the host, or for any host at all.
  abbrev pub binds : List String → String → Bool
  binds [] host = false
  binds (d ∷ ds) host =
      (not (str_eq (normalize_host d) "") && str_eq (normalize_host d) host) || binds ds host

  abbrev pub binds_any : List String → Bool
  binds_any [] = false
  binds_any (d ∷ ds) = not (str_eq (normalize_host d) "") || binds_any ds

  contains-append :
      (xs ys : List String) (host : String)
      → contains (xs ++ ys) host ≡ contains xs host || contains ys host
  contains-append [] ys host = refl
  contains-append (x ∷ xs) ys host = ground (arith, contains-append xs ys host)

  contains-normalize_loop :
      (seen ds : List String) (host : String)
      → contains (normalize_loop seen ds) host ≡ contains seen host || binds ds host
  unfolding normalize_loop
  contains-normalize_loop seen [] host = ground arith
  contains-normalize_loop seen (d ∷ ds) host =
      let kept = contains-normalize_loop seen ds host in
      let added = contains-normalize_loop (seen ++ normalize_host d ∷ []) ds host in
      ground
        (arith, eq_iff (normalize_host d) host, contains-append seen (normalize_host d ∷ []) host)

  abbrev is_empty : List String → Bool
  is_empty [] = true
  is_empty (d ∷ ds) = false

  is_empty-append : (xs : List String) (y : String) → is_empty (xs ++ y ∷ []) ≡ false
  is_empty-append [] y = refl
  is_empty-append (x ∷ xs) y = refl

  contains_nonempty :
      (xs : List String) (host : String) → is_empty xs ≡ true → contains xs host ≡ false
  contains_nonempty [] host e = refl
  contains_nonempty (x ∷ xs) host e = cc

  is_empty-normalize_loop :
      (seen ds : List String)
      → is_empty (normalize_loop seen ds) ≡ is_empty seen && not (binds_any ds)
  unfolding normalize_loop
  is_empty-normalize_loop seen [] = ground arith
  is_empty-normalize_loop seen (d ∷ ds) =
      let kept = is_empty-normalize_loop seen ds in
      let added = is_empty-normalize_loop (seen ++ normalize_host d ∷ []) ds in
      ground
        (arith, is_empty-append seen (normalize_host d), contains_nonempty seen (normalize_host d))

  host_allowed-cases :
      (ds : List String) (host : String)
      → host_allowed ds host ≡ is_empty ds || contains ds (normalize_host host)
  unfolding host_allowed
  host_allowed-cases [] host = refl
  host_allowed-cases (d ∷ ds) host = refl

  -- The domains that the configuration keeps allow a host if one of the domains as written stands for
  -- the host, both put into their normal form, or if none of them has a normal form that is not empty.
  pub host_allowed-normalize_loop :
      (ds : List String) (host : String)
      → host_allowed (normalize_loop [] ds) host
        ≡ not (binds_any ds) || binds ds (normalize_host host)
  host_allowed-normalize_loop ds host = ground (
    arith,
    host_allowed-cases (normalize_loop [] ds) host,
    is_empty-normalize_loop [] ds,
    contains-normalize_loop [] ds (normalize_host host),
  )
