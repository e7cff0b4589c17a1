-- ===== src/Server/Laws/Cases.antt =====
-- The outcomes of the guards of internal/server.
use jimu_studio.Base.{
  ℕ, String, true, not, Option, none, some, ◌≡◌, refl, arith, ap, Bool-cases, Option-cases, inl,
  inr, ◌==◌, ◌⊎◌, Result, ok, err, if◌then◌else◌, eq_iff, sym,
}
use jimu_studio.Base.Int.{pos}
use jimu_studio.Auth.Types.{SessionView, Broker}
use jimu_studio.Auth.Session.{session, validate_csrf, with_client}
use jimu_studio.Provider.Types.{ProviderError}
use jimu_studio.Provider.Client.{Client}
use jimu_studio.Server.Types.{Form, get, Request, Env, message, Response}
use jimu_studio.Server.Guards.{
  proceed, max_metadata_form_bytes, refuse, same_site_mutation, cookie_value, clear_cookie,
  authenticated_session, Guards, Admitted, admit, visit, with_provider,
}
use jimu_studio.Server.Roles.{has_role}

pub Result-cases {ℓ} :
    {E : Type 0} {A : Type ℓ} (r : Result E A) → ((e : E) × (r ≡ err e)) ⊎ ((a : A) × (r ≡ ok a))
Result-cases (err a) = inl (a, refl)
Result-cases (ok b) = inr (b, refl)

-- The two ways in which a handler goes on, with what the call gave.
pub proceed_split {ℓ κ ρ} :
    {E : Type 0} {A : Type ℓ} {B : Type κ} (R : Broker × B → Type ρ) (x : Broker × Result E A)
    (stop : Broker → E → Broker × B) (next : Broker → A → Broker × B)
    → ((b : Broker) (e : E) → x ≡ (b, err e) → R (stop b e))
    → ((b : Broker) (a : A) → x ≡ (b, ok a) → R (next b a))
    → R (proceed x stop next)
unfolding proceed
proceed_split R (b, err e) stop next stopped continued = stopped b e refl
proceed_split R (b, ok a) stop next stopped continued = continued b a refl

-- A value that `withProvider` gives is the operation's, on some client.
pub with_provider-ok {ℓ} :
    {A : Type ℓ} (env : Env) (n : ℕ) (b b' : Broker) (id : String)
    (operation : Client → Result ProviderError A) (a : A)
    → with_provider env n b id operation ≡ (b', ok a)
    → (client : Client) × (operation client ≡ ok a)
unfolding with_provider
with_provider-ok {A} env n b b' id operation a e =
    let answer : ◌≡◌ {A = Result ProviderError A} (with_provider env n b id operation).1 (ok a) =
      ap (λ x. x.1) e in
    elim (Result-cases (with_client b (env.world n) id).1) [
      | inl (f, g) ↦ let bad = rw (g, with_provider) at answer in cc
      | inr (h, g) ↦ elim (Option-cases (env.client_of h)) [
        | inl k ↦ let bad = rw (g, k, with_provider) at answer in cc
        | inr (client, k) ↦ (client, rw (g, k, with_provider) at answer)
      ]
    ]

-- The refusal of a request without a session.
abbrev pub unauthenticated : Response
unauthenticated = refuse 401 "authentication required"

pub authenticated_session_cases {ℓ} :
    (P : Broker × Result Response (String × SessionView) → Type ℓ) (env : Env) (b : Broker)
    (r : Request)
    → (cookie_value env r "session" ≡ "" → P (b, err unauthenticated))
    → ((b' : Broker)
        → session b (env.world 0) (cookie_value env r "session") ≡ (b', none)
        → P (b', err (clear_cookie env "session" unauthenticated)))
    → ((b' : Broker) (v : SessionView)
        → session b (env.world 0) (cookie_value env r "session") ≡ (b', some v)
        → P (b', ok (cookie_value env r "session", v)))
    → P (authenticated_session env b r)
unfolding authenticated_session
authenticated_session_cases P env b r absent gone there =
    let id = cookie_value env r "session" in
    elim (Bool-cases (id == "")) [
      | inl empty ↦ rw (empty, authenticated_session) (absent ((eq_iff id "").0 empty))
      | inr given ↦ elim (Option-cases (session b (env.world 0) id).1) [
        | inl f ↦
            rw (given, f, authenticated_session)
              (gone _ (λ i. ((session b (env.world 0) id).0, f i)))
        | inr (v, f) ↦
            rw (given, f, authenticated_session)
              (there _ v (λ i. ((session b (env.world 0) id).0, f i)))
      ]
    ]

-- A plain answer that refuses a request.
pub record IsRefusal (response : Response) : Type 0 where
  pub status :
      (response.status ≡ pos 400) ⊎ ((response.status ≡ pos 401) ⊎ (response.status ≡ pos 403))
  pub text : String
  pub shown : response.view ≡ message text

-- A broker on which nothing has happened but the look for the request's session.
abbrev pub IsUntouched : Env → Broker → Request → Broker → Type 0
IsUntouched env b r b' =
    (b' ≡ b) ⊎ (b' ≡ (session b (env.world 0) (cookie_value env r "session")).0)

-- The session of a request: `v` is what is seen of it, and `b'` the broker after the look for it.
pub record IsVisitor (env : Env) (b : Broker) (r : Request) (b' : Broker) (id : String)
    (v : SessionView) : Type 0 where
  pub cookie : cookie_value env r "session" ≡ id
  pub seen : session b (env.world 0) id ≡ (b', some v)

-- What a mutating handler relies on.
pub record IsAdmitted (g : Guards) (env : Env) (b : Broker) (r : Request) (b' : Broker)
    (id : String) (v : SessionView) (form : Form) : Type 0 where
  pub same_site : same_site_mutation env r ≡ true
  pub visitor : IsVisitor env b r b' id v
  pub role : has_role v g.role ≡ true
  pub parsed : r.form max_metadata_form_bytes ≡ some form
  pub csrf : validate_csrf b' id (get "csrf" form) ≡ ok tt

abbrev Refused : Env → Broker → Request → Broker × Response → Type 0
Refused env b r x = IsUntouched env b r x.0 × IsRefusal x.1

IsRefusal-400 : (text : String) → IsRefusal (refuse 400 text)
IsRefusal-400 text = record { status = inl refl; text = text; shown = refl }

IsRefusal-401 : (text : String) → IsRefusal (refuse 401 text)
IsRefusal-401 text = record { status = inr (inl refl); text = text; shown = refl }

IsRefusal-403 : (text : String) → IsRefusal (refuse 403 text)
IsRefusal-403 text = record { status = inr (inr refl); text = text; shown = refl }

cleared_401 : (env : Env) → IsRefusal (clear_cookie env "session" unauthenticated)
unfolding clear_cookie
cleared_401 env = record { status = inr (inl refl); text = "authentication required"; shown = refl }

module _ {ℓ} (P : Broker × Response → Type ℓ) (env : Env) (b : Broker) (r : Request)
    (refused : (x : Broker × Response) → Refused env b r x → P x) where
  form_cases :
      (g : Guards) (b' : Broker) (id : String) (v : SessionView) (handler : Admitted)
      → same_site_mutation env r ≡ true
      → IsVisitor env b r b' id v
      → IsUntouched env b r b'
      → ((b' : Broker) (id : String) (v : SessionView) (form : Form)
          → IsAdmitted g env b r b' id v form
          → P (handler b' id v form))
      → P (
          if not (has_role v g.role)
          then (b', refuse 403 g.forbidden)
          else elim (r.form max_metadata_form_bytes) [
            | none ↦ (b', refuse 400 g.bad_form)
            | some form ↦ elim (validate_csrf b' id (get "csrf" form)) [
              | err e ↦ (b', refuse 403 g.rejected)
              | ok u ↦ handler b' id v form
            ]
          ])
  form_cases g b' id v handler same visitor kept admitted = elim (Bool-cases (has_role v g.role)) [
    | inr lacking ↦ rw lacking (refused _ (kept, IsRefusal-403 g.forbidden))
    | inl held ↦ elim (Option-cases (r.form max_metadata_form_bytes)) [
      | inl f ↦ rw (held, f) (refused _ (kept, IsRefusal-400 g.bad_form))
      | inr (form, f) ↦ elim (Result-cases (validate_csrf b' id (get "csrf" form))) [
        | inl (e, c) ↦ rw (held, f, c) (refused _ (kept, IsRefusal-403 g.rejected))
        | inr (tt, c) ↦
            rw (held, f, c)
              (admitted b' id v form
                (record { same_site = same; visitor = visitor; role = held; parsed = f; csrf = c }))
      ]
    ]
  ]

  pub admit_cases :
      (g : Guards) (handler : Admitted)
      → ((b' : Broker) (id : String) (v : SessionView) (form : Form)
          → IsAdmitted g env b r b' id v form
          → P (handler b' id v form))
      → P (admit g env b r handler)
  unfolding admit
  admit_cases g handler admitted = elim (Bool-cases (same_site_mutation env r)) [
    | inr cross ↦ rw (cross, admit) (refused _ (inl refl, IsRefusal-403 g.cross_site))
    | inl same ↦
        rw (same, admit)
          (authenticated_session_cases
            (λ (x : Broker × Result Response (String × SessionView)). P (elim x.1 [
              | err refusal ↦ (x.0, refusal)
              | ok (id, v) ↦
                  if not (has_role v g.role)
                  then (x.0, refuse 403 g.forbidden)
                  else elim (r.form max_metadata_form_bytes) [
                    | none ↦ (x.0, refuse 400 g.bad_form)
                    | some form ↦ elim (validate_csrf x.0 id (get "csrf" form)) [
                      | err e ↦ (x.0, refuse 403 g.rejected)
                      | ok u ↦ handler x.0 id v form
                    ]
                  ]
            ]))
            env b r (λ empty. refused _ (inl refl, IsRefusal-401 "authentication required"))
            (λ b' gone. refused _ (inr (ap (λ x. x.0) (sym gone)), cleared_401 env))
            (λ b' v seen.
              form_cases g b' (cookie_value env r "session") v handler same
                (record { cookie = refl; seen = seen }) (inr (ap (λ x. x.0) (sym seen))) admitted))
  ]

  pub visit_cases :
      (role : Option (String × String))
      (handler : Broker → String → SessionView → Broker × Response)
      → ((b' : Broker) (id : String) (v : SessionView)
          → IsVisitor env b r b' id v
          → ((name forbidden : String) → role ≡ some (name, forbidden) → has_role v name ≡ true)
          → P (handler b' id v))
      → P (visit role env b r handler)
  unfolding visit
  visit_cases role handler admitted =
      authenticated_session_cases
        (λ (x : Broker × Result Response (String × SessionView)). P (elim x.1 [
          | err refusal ↦ (x.0, refusal)
          | ok (id, v) ↦ elim role [
            | none ↦ handler x.0 id v
            | some (name, forbidden) ↦
                if not (has_role v name) then (x.0, refuse 403 forbidden) else handler x.0 id v
          ]
        ]))
        env b r (λ empty. refused _ (inl refl, IsRefusal-401 "authentication required"))
        (λ b' gone. refused _ (inr (ap (λ x. x.0) (sym gone)), cleared_401 env))
        (λ b' v seen.
          let visitor : IsVisitor env b r b' (cookie_value env r "session") v = record {
            cookie = refl;
            seen = seen;
          } in
          let kept : IsUntouched env b r b' = inr (ap (λ x. x.0) (sym seen)) in
          elim (Option-cases role) [
            | inl f ↦ rw f (admitted b' _ v visitor (λ name forbidden e. let bad = rw f at e in cc))
            | inr ((name, forbidden), f) ↦ elim (Bool-cases (has_role v name)) [
              | inr lacking ↦ rw (f, lacking) (refused _ (kept, IsRefusal-403 forbidden))
              | inl held ↦
                  rw (f, held)
                    (admitted b' _ v visitor (λ name' forbidden' e. ground (arith, f, e, held)))
            ]
          ])
