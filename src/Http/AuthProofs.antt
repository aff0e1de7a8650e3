-- ===== src/Http/AuthProofs.antt =====
-- Only a request with the server's token gets through to a handler, over either transport.
use kbeads.Prelude.{
  String, Bool, true, false, ◌&&◌, List, [], ◌∷◌, Option, none, some, ◌==◌, if◌then◌else◌, ◌⊎◌, inl,
  inr, ◌≡◌, ◌↔◌, refl, sym, ap, ◌∙◌, subst, eq_iff, Bool-cases, arith,
}
use kbeads.Prelude.Text.{
  append, has_prefix, drop_prefix, append-drop_prefix, has_prefix-append, drop_prefix-append,
}
use kbeads.Server.Actions.{World}
use kbeads.Http.Replies.{Response}
use kbeads.Server.Replies.{internal}
use kbeads.Http.Auth.{
  HttpRequest, auth_middleware, bearer, unauthorized, RpcHandler, RpcStatus, unauthenticated,
  of_code, refused, recovered, first_value, new_grpc_server, client_header,
}

-- No token is asked for, the request is exempt, or the request bears the token.
abbrev pub Admitted : String → Type 0 → Type 0 → Type 0
Admitted token Exempt Bears = (token ≡ "") ⊎ Exempt ⊎ Bears

-- One of two outcomes, by whether a request is admitted.
abbrev pub Decided : {R : Type 0} → Type 0 → R → R → R → Type 0
Decided P admitted denied r = (P × (r ≡ admitted)) ⊎ ((P → ⊥) × (r ≡ denied))

bearer_lem :
    {R : Type 0} (token header : String) (admitted denied : R)
    → Decided
        (header ≡ append "Bearer " token)
        admitted
        denied
        (bearer token header admitted denied)
bearer_lem token header admitted denied = elim (Bool-cases (has_prefix header "Bearer ")) [
  | inr n ↦ inr (
    λ h. let p = ap (λ x. has_prefix x "Bearer ") h ∙ has_prefix-append "Bearer " token in cc,
    rw n refl,
  )
  | inl p ↦ elim (Bool-cases (drop_prefix header "Bearer " == token)) [
    | inl e ↦
        let split = append-drop_prefix "Bearer " header p in
        let same = (eq_iff (drop_prefix header "Bearer ") token).0 e in
        inl (sym split ∙ ap (append "Bearer ") same, rw (p, e) refl)
    | inr n ↦ inr (
      λ h.
          let rest = ap (λ x. drop_prefix x "Bearer ") h ∙ drop_prefix-append "Bearer " token in
          let same = (eq_iff (drop_prefix header "Bearer ") token).1 rest in cc,
      rw (p, n) refl,
    )
  ]
]

-- A test in front lets more requests through.
exempting :
    {E Q R : Type 0} (c : Bool) (admitted denied r : R)
    → (c ≡ true) ↔ E
    → Decided Q admitted denied r
    → Decided (E ⊎ Q) admitted denied (if c then admitted else r)
exempting true a d r iff h = inl (inl (iff.0 refl), refl)
exempting false a d r iff (inl (q, e)) = inl (inr q, e)
exempting false a d r iff (inr (n, e)) =
    inr (λ x. elim x [ inl y ↦ (let f = iff.1 y in cc) | inr q ↦ n q ], e)

-- A request for the health of the server, which needs no token.
abbrev pub IsHealth : HttpRequest → Type 0
IsHealth req = (req.method ≡ "GET") × (req.path ≡ "/v1/health")

both_iff : (a b c d : String) → (a == b && c == d ≡ true) ↔ ((a ≡ b) × (c ≡ d))
both_iff a b c d = ground (arith, eq_iff a b, eq_iff c d)

-- A request without a header is refused as any other without the token.
header_lem :
    {R : Type 0} (token header : String) (admitted denied : R)
    → Decided
        (header ≡ append "Bearer " token)
        admitted
        denied
        (if header == "" then denied else bearer token header admitted denied)
header_lem token header admitted denied = elim (Bool-cases (header == "")) [
  | inl y ↦ inr (
    λ h.
        let e : header ≡ "" = (eq_iff header "").0 y in
        let clash : append "Bearer " token ≡ "" = sym h ∙ e in cc,
    rw y refl,
  )
  | inr n ↦ rw n (bearer_lem token header admitted denied)
]

-- A request reaches the HTTP handlers exactly if the server has no token, or it asks for the health, or
-- its header is the token behind "Bearer "; any other is answered with 401 and changes nothing.
pub auth_middleware_lem :
    (token : String) (next : HttpRequest → World → Response × World) (req : HttpRequest) (w : World)
    → Decided
        (Admitted token (IsHealth req) (req.authorization ≡ append "Bearer " token))
        (next req w)
        (unauthorized w)
        (auth_middleware token next req w)
unfolding auth_middleware
auth_middleware_lem token next req w =
    exempting (token == "") (next req w) (unauthorized w) _ (eq_iff token "") (
      exempting (req.method == "GET" && req.path == "/v1/health") (next req w) (unauthorized w) _
        (both_iff req.method "GET" req.path "/v1/health")
        (header_lem token req.authorization (next req w) (unauthorized w)))

-- The first value of the header is the token behind the scheme.
abbrev pub FirstBears : String → Option (List String) → Type 0
FirstBears token values = (more : List String) × (values ≡ some (append "Bearer " token ∷ more))

first_value_lem :
    {A : Type 0} (token : String) (values : Option (List String)) (handler : RpcHandler A)
    (w : World)
    → Decided (FirstBears token values) (handler w) (refused w) (first_value token values handler w)
first_value_lem token none handler w = inr (λ h. (let e = h.1 in cc), refl)
first_value_lem token (some []) handler w = inr (λ h. (let e = h.1 in cc), refl)
first_value_lem token (some (v ∷ more)) handler w =
    elim (bearer_lem token v (handler w) (refused w)) [
      | inl (e, r) ↦ inl ((more, cc), r)
      | inr (n, r) ↦ inr (λ h. n (let e = h.1 in cc), r)
    ]

recovered-Decided :
    {A P : Type 0} (a d r : Option (A ⊎ RpcStatus) × World)
    → Decided P a d r
    → Decided P (recovered a) (recovered d) (recovered r)
recovered-Decided a d r (inl (p, e)) = inl (p, ap recovered e)
recovered-Decided a d r (inr (n, e)) = inr (n, ap recovered e)

-- NewGRPCServer tests for a token, and the interceptor does again.
tested_twice :
    {A : Type 0} (c : Bool) (a r : Option (A ⊎ RpcStatus) × World)
    → (if c then recovered a else recovered (if c then a else r)) ≡ recovered (if c then a else r)
tested_twice true a r = refl
tested_twice false a r = refl

-- What a handler gives is answered as it is, and a panic of it as an internal error.
abbrev pub AnsweredBy : {A : Type 0} → RpcHandler A → World → (A ⊎ RpcStatus) × World → Type 0
AnsweredBy {A} handler w r =
    ((a : A ⊎ RpcStatus) (w1 : World) → handler w ≡ (some a, w1) → r ≡ (a, w1))
    × ((w1 : World) → handler w ≡ (none, w1) → r ≡ (inr (of_code internal), w1))

recovered-AnsweredBy :
    {A : Type 0} (handler : RpcHandler A) (w : World) → AnsweredBy handler w (recovered (handler w))
recovered-AnsweredBy handler w = (λ a w1 h. ap recovered h, λ w1 h. ap recovered h)

-- A unary call reaches the gRPC handlers exactly if the server has no token, or it is the health check, or
-- the first value of its header is the token behind "Bearer "; any other is answered as unauthenticated and
-- changes nothing. What the handler gives is answered, and a panic of it as an internal error.
pub new_grpc_server_lem :
    {A : Type 0} (token full_method : String) (values : Option (List String))
    (handler : RpcHandler A) (w : World)
    → (Admitted token (full_method ≡ "/beads.v1.BeadsService/Health") (FirstBears token values)
        × AnsweredBy handler w (new_grpc_server token full_method values handler w))
      ⊎ ((Admitted token (full_method ≡ "/beads.v1.BeadsService/Health") (FirstBears token values)
            → ⊥)
          × (new_grpc_server token full_method values handler w ≡ (inr unauthenticated, w)))
unfolding new_grpc_server
new_grpc_server_lem token full_method values handler w =
    let health = full_method == "/beads.v1.BeadsService/Health" in
    let past_health = if health then handler w else first_value token values handler w in
    let inner = exempting (token == "") (handler w) (refused w) past_health (eq_iff token "") (
      exempting health (handler w) (refused w) (first_value token values handler w)
        (eq_iff full_method "/beads.v1.BeadsService/Health")
        (first_value_lem token values handler w)) in
    let twice = tested_twice (token == "") (handler w) past_health in
    elim (recovered-Decided (handler w) (refused w) _ inner) [
      | inl (p, e) ↦
          inl (p, subst (AnsweredBy handler w) (sym (twice ∙ e)) (recovered-AnsweredBy handler w))
      | inr (n, e) ↦ inr (n, twice ∙ e)
    ]

-- A request that the client sends with the server's token gets through.
client_gets_through :
    (token method path : String) (next : HttpRequest → World → Response × World) (w : World)
    → let req : HttpRequest = record {
      method = method;
      path = path;
      authorization = client_header token;
    } in
      auth_middleware token next req w ≡ next req w
unfolding client_header
client_gets_through token method path next w =
    let req : HttpRequest = record {
      method = method;
      path = path;
      authorization = client_header token;
    } in
    elim (auth_middleware_lem token next req w) [
      | inl (p, e) ↦ e
      | inr (n, e) ↦ elim (Bool-cases (token == "")) [
        | inl y ↦ absurd (n (inl ((eq_iff token "").0 y)))
        | inr m ↦ absurd (n (inr (inr (rw m refl))))
      ]
    ]
