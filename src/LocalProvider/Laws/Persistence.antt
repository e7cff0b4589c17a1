-- ===== src/LocalProvider/Laws/Persistence.antt =====
-- internal/localprovider/server.go: the transaction around a request.
use jimu_studio.Base.{
  suc, String, true, false, some, ◌≡◌, ◌⊎◌, ◌<◌, refl, sym, subst, arith, inl, inr, Option-cases,
  Bool-cases, ltb, ◌==◌,
}
use jimu_studio.Base.Text.{has_prefix}
use jimu_studio.LocalProvider.State.{State, Request, Response, Clock}
use jimu_studio.LocalProvider.Mutation.{Decoders}
use jimu_studio.LocalProvider.Routes.{serve_loaded}
use jimu_studio.LocalProvider.Storage.{Row, Storage, commit_row, save_row, serve_persisted, serve}

-- How a request ends: the row as it was, or the next state of the row's own, written whole.
abbrev pub IsAtomic : Storage → Decoders → Clock → Row → Request → Row × Response → Type 0
IsAtomic db json clock old r (new, response) =
    (new ≡ old)
    ⊎ ((s : State) × (db.unmarshal old.payload ≡ some s)
        × (db.marshal (serve_loaded json clock s r).0 ≡ some new.payload)
        × (new.revision ≡ suc old.revision)
        × (response ≡ (serve_loaded json clock s r).1)
        × (response.status < 500)
        × (has_prefix r.authorization "Bearer " ≡ true))

module _ (db : Storage) (json : Decoders) (clock : Clock) (old : Row) (r : Request) where
  save_row-IsAtomic :
      (s : State)
      → db.unmarshal old.payload ≡ some s
      → has_prefix r.authorization "Bearer " ≡ true
      → IsAtomic db json clock old r
          (save_row db old (serve_loaded json clock s r).0 (serve_loaded json clock s r).1)
  unfolding save_row commit_row
  save_row-IsAtomic s found bearer =
      let (s', response) = serve_loaded json clock s r in
      elim (Bool-cases (ltb response.status 500)) [
        | inr large ↦ elim (Bool-cases db.commits) [
          | inl e ↦ rw (large, e, save_row, commit_row) (inl refl)
          | inr e ↦ rw (large, e, save_row, commit_row) (inl refl)
        ]
        | inl small ↦ elim (Option-cases (db.marshal s')) [
          | inl e ↦ rw (small, e, save_row) (inl refl)
          | inr (payload, e) ↦ elim (Bool-cases db.saves) [
            | inr f ↦ rw (small, e, f, save_row) (inl refl)
            | inl f ↦ elim (Bool-cases db.commits) [
              | inr g ↦ rw (small, e, f, g, save_row, commit_row) (inl refl)
              | inl g ↦
                  rw (small, e, f, g, save_row, commit_row)
                    (inr (s, found, e, refl, refl, ground (arith, small), bearer))
            ]
          ]
        ]
      ]

  serve_persisted-IsAtomic :
      has_prefix r.authorization "Bearer " ≡ true
      → IsAtomic db json clock old r (serve_persisted db json clock old r)
  unfolding serve_persisted
  serve_persisted-IsAtomic bearer = elim (Bool-cases db.begins) [
    | inr e ↦ rw (e, serve_persisted) (inl refl)
    | inl e ↦ elim (Bool-cases db.loads) [
      | inr f ↦ rw (e, f, serve_persisted) (inl refl)
      | inl f ↦ elim (Option-cases (db.unmarshal old.payload)) [
        | inl g ↦ rw (e, f, g, serve_persisted) (inl refl)
        | inr (s, g) ↦
            let runs : serve_persisted db json clock old r
                ≡ save_row db old (serve_loaded json clock s r).0 (serve_loaded json clock s r).1 =
              simp (e, f, g, serve_persisted) in
            subst (IsAtomic db json clock old r) (sym runs) (save_row-IsAtomic s g bearer)
      ]
    ]
  ]

  -- A request is all or nothing: it leaves the row as it was, or the row held a state, the new row
  -- holds the whole state that the handler made of it under the next revision, the answer is the
  -- handler's with a status below 500, and the request was authorized.
  pub serve-IsAtomic : IsAtomic db json clock old r (serve db json clock old r)
  unfolding serve
  serve-IsAtomic = elim (Bool-cases (r.path == "/healthz")) [
    | inl e ↦ elim (Bool-cases db.pings) [
      | inl f ↦ rw (e, f, serve) (inl refl)
      | inr f ↦ rw (e, f, serve) (inl refl)
    ]
    | inr e ↦ elim (Bool-cases (has_prefix r.authorization "Bearer ")) [
      | inr f ↦ rw (e, f, serve) (inl refl)
      | inl f ↦
          let runs : serve db json clock old r ≡ serve_persisted db json clock old r =
            rw (e, f, serve) in
          subst (IsAtomic db json clock old r) (sym runs) (serve_persisted-IsAtomic f)
    ]
  ]

-- A database on which nothing fails.
pub record IsWorking (db : Storage) : Type 0 where
  pub begins : db.begins ≡ true
  pub loads : db.loads ≡ true
  pub saves : db.saves ≡ true
  pub commits : db.commits ≡ true

-- An answer with status 200 is the handler's, on the row's state, and the next state is written.
pub serve-success :
    (db : Storage) (json : Decoders) (clock : Clock) (old : Row) (r : Request)
    → (r.path == "/healthz") ≡ false
    → (serve db json clock old r).1.status ≡ 200
    → (s : State) × (db.unmarshal old.payload ≡ some s)
      × (db.marshal (serve_loaded json clock s r).0 ≡ some (serve db json clock old r).0.payload)
      × ((serve db json clock old r).1 ≡ (serve_loaded json clock s r).1)
      × (has_prefix r.authorization "Bearer " ≡ true)
unfolding serve serve_persisted save_row commit_row
serve-success db json clock old r path h =
    elim (Bool-cases (has_prefix r.authorization "Bearer ")) [
      | inr f ↦ absurd (ground arith)
      | inl bearer ↦ elim (Option-cases (db.unmarshal old.payload)) [
        | inl f ↦ absurd (ground arith)
        | inr (s, f) ↦ elim (Option-cases (db.marshal (serve_loaded json clock s r).0)) [
          | inl g ↦ absurd (ground arith)
          | inr (payload, g) ↦ (s, f, ground arith, ground arith, bearer)
        ]
      ]
    ]

-- On a working database, the handler's answer with status 200 is given and its state written.
pub serve-working :
    (db : Storage) (json : Decoders) (clock : Clock) (old : Row) (r : Request) (s : State)
    (payload : String)
    → (r.path == "/healthz") ≡ false
    → has_prefix r.authorization "Bearer " ≡ true
    → IsWorking db
    → db.unmarshal old.payload ≡ some s
    → (serve_loaded json clock s r).1.status ≡ 200
    → db.marshal (serve_loaded json clock s r).0 ≡ some payload
    → serve db json clock old r
      ≡ (record { payload = payload; revision = suc old.revision }, (serve_loaded json clock s r).1)
unfolding serve serve_persisted save_row commit_row
serve-working db json clock old r s payload path bearer works found success encoded =
    ground (arith, works.begins, works.loads, works.saves, works.commits)
