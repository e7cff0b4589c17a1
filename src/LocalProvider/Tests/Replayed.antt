-- ===== src/LocalProvider/Tests/Replayed.antt =====
-- internal/localprovider: a deletion that is repeated after another request, on the state table.
use Prim.Native.Char.{Char, code}
use jimu_studio.Base.{
  ℕ, zero, suc, String, true, Option, some, List, [], ◌∷◌, ◌≡◌, refl, arith, ap, eqb, ◌==◌,
  if◌then◌else◌, Bool-cases, inl, inr,
}
use jimu_studio.Base.Dict.{Dict, lookup, insert, delete}
use jimu_studio.LocalProvider.State.{Body, read_back, CachedMutation, State, initial_state}
use jimu_studio.LocalProvider.Mutation.{mutate, audit_record}
use jimu_studio.LocalProvider.Entities.{delete_entity, delete_entity_effect, decode_deletion}
use jimu_studio.LocalProvider.Routes.{route, handle, serve_loaded}
use jimu_studio.LocalProvider.Storage.{Row, Storage, commit_row, save_row, serve_persisted, serve}
use jimu_studio.LocalProvider.Laws.Persistence.{IsWorking}
use jimu_studio.LocalProvider.Laws.Repeat.{
  is_mutation, Occasion, answering, serve_rows, IsCodec, replay_later,
}
use jimu_studio.LocalProvider.Tests.{clock, json, delete_orders, nowhere}

-- An encoding that keeps, of the kept results, the keys and the statuses: each letter of a key
-- stands behind a `k`, each unit of a status is an `s`, and an entry ends with an `e`.
abbrev write_key : String → String → String
write_key String.[] rest = rest
write_key (String.◌∷◌ c key) rest = String.◌∷◌ "k" (String.◌∷◌ c (write_key key rest))

abbrev write_status : ℕ → String → String
write_status zero rest = rest
write_status (suc n) rest = String.◌∷◌ "s" (String.◌∷◌ "." (write_status n rest))

abbrev write : Dict CachedMutation → String
write [] = ""
write ((key, c) ∷ m) =
    write_key key (write_status c.status (String.◌∷◌ "e" (String.◌∷◌ "." (write m))))

abbrev push : Char → Dict CachedMutation → Dict CachedMutation
push d [] = []
push d ((key, c) ∷ m) = (String.◌∷◌ d key, c) ∷ m

abbrev count_up : Dict CachedMutation → Dict CachedMutation
count_up [] = []
count_up ((key, c) ∷ m) = (key, record c { status = suc c.status }) ∷ m

abbrev read : String → Dict CachedMutation
read String.[] = []
read (String.◌∷◌ c String.[]) = []
read (String.◌∷◌ c (String.◌∷◌ d s)) =
    let rest = read s in
    if eqb (code c) b'k'
    then push d rest
    else if eqb (code c) b's'
    then count_up rest
    else ("", record { status = 0; value = read_back "null" }) ∷ rest

read-write_key :
    (key : String) (c : CachedMutation) (m : Dict CachedMutation) (rest : String)
    → read rest ≡ ("", c) ∷ m
    → read (write_key key rest) ≡ (key, c) ∷ m
read-write_key String.[] c m rest e = e
read-write_key (String.◌∷◌ d key) c m rest e = ap (push d) (read-write_key key c m rest e)

read-write_status :
    (n : ℕ) (m : String)
    → read (write_status n (String.◌∷◌ "e" (String.◌∷◌ "." m)))
      ≡ ("", record { status = n; value = read_back "null" }) ∷ read m
read-write_status zero m = refl
read-write_status (suc n) m = ap count_up (read-write_status n m)

lookup-read-write :
    (m : Dict CachedMutation) (k : String) (c : CachedMutation)
    → lookup k m ≡ some c
    → lookup k (read (write m)) ≡ some (record c { value = read_back "null" })
unfolding lookup
lookup-read-write [] k c e = absurd (ground arith)
lookup-read-write ((j, d) ∷ m) k c e =
    let first =
      read-write_key j (record d { value = read_back "null" }) (read (write m))
        (write_status d.status (String.◌∷◌ "e" (String.◌∷◌ "." (write m))))
        (read-write_status d.status (write m)) in
    rw first (elim (Bool-cases (j == k)) [
      | inl here ↦
          let same : ◌≡◌ {A = Option CachedMutation} (some d) (some c) = rw (here, lookup) at e in
          let same_entry : d ≡ c = cc in rw (here, lookup) (rw same_entry refl)
      | inr other ↦ rw (other, lookup) (lookup-read-write m k c (rw (other, lookup) at e))
    ])

abbrev codec : Storage
codec = record {
  marshal = λ s. some (write s.idempotency);
  unmarshal = λ payload. some (record initial_state { idempotency = read payload });
  pings = true;
  begins = true;
  loads = true;
  saves = true;
  commits = true;
}

abbrev reread : Body → Body
reread value = read_back "null"

codec-IsCodec : IsCodec codec reread
codec-IsCodec = record {
  writes = λ s. (write s.idempotency, refl);
  reads = λ s payload e.
      let same : ◌≡◌ {A = Option String} (some (write s.idempotency)) (some payload) = e in
      let same_payload : write s.idempotency ≡ payload = cc in
      rw (← same_payload) (
        record initial_state { idempotency = read (write s.idempotency) },
        refl,
        λ k c found. lookup-read-write s.idempotency k c found,
      );
  settles = λ value. refl;
}

abbrev empty_row : Row
empty_row = record { payload = ""; revision = 4 }

delete_orders-mutates : is_mutation (route delete_orders.method delete_orders.path) ≡ true
unfolding is_mutation route
delete_orders-mutates = refl

delete_orders-succeeds :
    (serve (answering codec codec) json clock empty_row delete_orders).1.status ≡ 200
unfolding serve serve_persisted save_row commit_row serve_loaded handle route delete_entity
    decode_deletion mutate delete_entity_effect audit_record initial_state lookup insert delete
delete_orders-succeeds = refl

codec-IsWorking : IsWorking codec
codec-IsWorking = record { begins = refl; loads = refl; saves = refl; commits = refl }

abbrev later : List Occasion
later = record { db = codec; clock = clock; request = nowhere } ∷ []

replay_later_example :
    let (row, answer) = serve (answering codec codec) json clock empty_row delete_orders in
    let row' = serve_rows json codec row later in
    let (row'', answer') = serve (answering codec codec) json clock row' delete_orders in
    (answer' ≡ record { status = 200; body = reread answer.body })
    × ((s : State) × (codec.unmarshal row'.payload ≡ some s)
        × (codec.marshal s ≡ some row''.payload))
replay_later_example =
    replay_later json codec reread codec codec clock clock empty_row delete_orders later
      codec-IsCodec delete_orders-mutates refl delete_orders-succeeds codec-IsWorking
