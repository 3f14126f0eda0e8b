-- ===== src/JsonRpc/Methods.antt =====
-- `ParseMethods`: what the gateway knows of a request that it accepts.
use rpc_node_gateway.Prelude.{
  ℕ, suc, ◌≡◌, refl, ◌≢◌, ap, ◌⊎◌, ◌||◌, String, Bool, true, false, Option, none, some, List, [],
  ◌∷◌, str_eq, if◌then◌else◌, trim_space, Bool-cases, inl, inr, arith,
}
use rpc_node_gateway.JsonRpc.{
  Codec, Request, ParseError, invalid_batch, invalid_request, Result, ok, err, is_batch,
  batch_methods, single_method, batch_of_methods, parse_methods,
}

abbrev methods_of : List Request → List String
methods_of [] = []
methods_of (item ∷ items) = item.method ∷ methods_of items

-- A call has no method.
abbrev has_unnamed : List Request → Bool
has_unnamed [] = false
has_unnamed (item ∷ items) = str_eq item.method "" || has_unnamed items

-- What is right of the methods of a request: they are those of its calls, in their order, where there
-- are calls and each has one; else the request is refused.
abbrev pub Named : List Request → Result (List String) → Type 0
Named items (err e) = (items ≡ []) ⊎ (has_unnamed items ≡ true)
Named items (ok ms) = (ms ≡ methods_of items) × (items ≢ []) × (has_unnamed items ≡ false)

abbrev Listed : List Request → Result (List String) → Type 0
Listed items (err e) = has_unnamed items ≡ true
Listed items (ok ms) = (ms ≡ methods_of items) × (has_unnamed items ≡ false)

Listed-more :
    (item : Request) (items : List Request) (r : Result (List String))
    → str_eq item.method "" ≡ false
    → Listed items r
    → Listed (item ∷ items) (elim r [ ok ms ↦ ok (item.method ∷ ms) | err e ↦ err e ])
Listed-more item items (ok ms) f (same, named) = (ap (λ xs. item.method ∷ xs) same, ground arith)
Listed-more item items (err e) f l = ground arith

batch_methods-Listed : (i : ℕ) (items : List Request) → Listed items (batch_methods i items)
unfolding batch_methods
batch_methods-Listed i [] = (refl, refl)
batch_methods-Listed i (item ∷ items) = elim (Bool-cases (str_eq item.method "")) [
  | inl t ↦ rw (t, batch_methods) (rw t refl)
  | inr f ↦
      rw (f, batch_methods)
        (Listed-more item items (batch_methods (suc i) items) f
          (batch_methods-Listed (suc i) items))
]

nonempty : (item : Request) (items : List Request) → item ∷ items ≢ []
nonempty item items z = absurd (ground arith)

-- The calls of a body, as the decoder reads them.
abbrev pub calls : Codec → String → Option (List Request)
calls codec body =
    if is_batch body
    then codec.requests body
    else elim (codec.request body) [ none ↦ none | some r ↦ some (r ∷ []) ]

abbrev pub NamedCalls : Option (List Request) → Result (List String) → Type 0
NamedCalls none r = (e : ParseError) × (r ≡ err e)
NamedCalls (some items) r = Named items r

Listed-Named :
    (item : Request) (items : List Request) (r : Result (List String))
    → Listed (item ∷ items) r
    → Named (item ∷ items) r
Listed-Named item items (err e) l = inr l
Listed-Named item items (ok ms) (same, named) = (same, nonempty item items, named)

batch_of_methods-NamedCalls : (o : Option (List Request)) → NamedCalls o (batch_of_methods o)
unfolding batch_of_methods
batch_of_methods-NamedCalls none = (invalid_batch, refl)
batch_of_methods-NamedCalls (some []) = inl refl
batch_of_methods-NamedCalls (some (item ∷ items)) =
    Listed-Named item items (batch_methods 0 (item ∷ items)) (batch_methods-Listed 0 (item ∷ items))

single_method-NamedCalls :
    (o : Option Request)
    → NamedCalls (elim o [ none ↦ none | some r ↦ some (r ∷ []) ]) (single_method o)
unfolding single_method
single_method-NamedCalls none = (invalid_request, refl)
single_method-NamedCalls (some r) = elim (Bool-cases (str_eq r.method "")) [
  | inl t ↦ rw (t, single_method) (inr (rw t refl))
  | inr f ↦ rw (f, single_method) (refl, nonempty r [], rw f refl)
]

-- A body that is not blank and that the decoder cannot read is refused. One that it can read, single
-- or a batch, is refused exactly where it has no call or a call has no method; else `ParseMethods`
-- returns the methods of its calls, in their order.
pub parse_methods-NamedCalls :
    (codec : Codec) (body : String)
    → str_eq (trim_space body) "" ≡ false
    → NamedCalls (calls codec (trim_space body)) (parse_methods codec body)
unfolding parse_methods
parse_methods-NamedCalls codec body f = elim (Bool-cases (is_batch (trim_space body))) [
  | inl t ↦
      rw (f, t, parse_methods) (batch_of_methods-NamedCalls (codec.requests (trim_space body)))
  | inr n ↦ rw (f, n, parse_methods) (single_method-NamedCalls (codec.request (trim_space body)))
]
