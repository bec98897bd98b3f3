-- ===== src/Rpc/Removal.antt =====
-- Which handlers a server has after services are added and removed (datacake-rpc/src/server.rs).
use datacake.Base.{
  ap, ◌≢◌, ◌≡◌, refl, ◌∙◌, Bool, true, false, ◌||◌, Option, none, some, List, [], ◌∷◌, ◌==◌, ==_iff,
  if◌then◌else◌, arith, Option-cases, inl, inr,
}
use datacake.Base.Ord.{nat_ord}
use datacake.Base.TextOrd.{text_ord, text_beq, text_beq_iff}
use datacake.Base.Assoc.{get}
use datacake.Base.BTreeMap
use datacake.Base.BTreeMap.{IsSorted, insert-IsSorted}
use datacake.Base.BTreeSet
use datacake.Base.BTreeSet.{contains}
use datacake.Base.Text.{Text}
use datacake.Rpc.Registry.{
  HandlerKey, Handlers, to_uri_path, ServerState, add_handler, register_handlers, keys_of, add_keys,
  extend_handlers, add_handlers, retain, remove_handlers, get_handler, add_service,
}

abbrev or_else {ℓ} : {A : Type ℓ} → Option A → Option A → Option A
or_else none b = b
or_else (some a) b = some a

has : {H : Type 0} → HandlerKey → Handlers H → Bool
has key handlers = elim (get key handlers) [ none ↦ false | some h ↦ true ]

module _ {H : Type 0} where
  get-extend_handlers :
      (key : HandlerKey) (new own : Handlers H)
      → IsSorted new
      → get key (extend_handlers new own) ≡ or_else (get key new) (get key own)
  unfolding extend_handlers get
  get-extend_handlers key [] own sorted = refl
  get-extend_handlers key ((j, h) ∷ new) own sorted = ground (
    arith,
    ==_iff j key,
    BTreeMap.get-Above j new sorted.0,
    get-extend_handlers key new (BTreeMap.insert j h own) sorted.1,
    BTreeMap.get-insert key j h own,
  )

  get-retain :
      (key : HandlerKey) (uris : List HandlerKey) (handlers : Handlers H)
      → get key (retain uris handlers) ≡ (if contains key uris then get key handlers else none)
  unfolding retain get
  get-retain key uris [] = ground arith
  get-retain key uris ((j, h) ∷ handlers) =
      ground (arith, ==_iff j key, get-retain key uris handlers)

  keys-add_keys :
      (service other : Text) (key : HandlerKey) (handlers : Handlers H)
      (services : List (Text × List HandlerKey))
      → contains key (keys_of other (add_keys service handlers services)) ≡ (
          if text_beq service other
          then has key handlers || contains key (keys_of other services)
          else contains key (keys_of other services))
  unfolding add_keys get has
  keys-add_keys service other key [] services = ground arith
  keys-add_keys service other key ((j, h) ∷ handlers) services =
      let keys = BTreeSet.insert j (keys_of service services) in
      ground (
        arith,
        text_beq_iff service other,
        ==_iff j key,
        keys-add_keys service other key handlers (BTreeMap.insert service keys services),
        BTreeMap.get-insert other service keys services,
        BTreeSet.contains-insert key j (keys_of service services),
      )

-- The handler of the last message of a service whose path has a hash.
abbrev pub registered :
    {H : Type 0} → (Text → HandlerKey) → Text → List (Text × H) → HandlerKey → Option H
registered hash service [] key = none
registered hash service ((path, h) ∷ messages) key =
    or_else (registered hash service messages key)
      (if hash (to_uri_path service path) == key then some h else none)

module _ {H : Type 0} (hash : Text → HandlerKey) where
  get-register_handlers :
      (service : Text) (key : HandlerKey) (messages : List (Text × H)) (handlers : Handlers H)
      → get key (register_handlers hash service messages handlers)
        ≡ or_else (registered hash service messages key) (get key handlers)
  unfolding register_handlers add_handler
  get-register_handlers service key [] handlers = refl
  get-register_handlers service key ((path, h) ∷ messages) handlers =
      let uri = hash (to_uri_path service path) in
      ground (
        arith,
        get-register_handlers service key messages (BTreeMap.insert uri h handlers),
        BTreeMap.get-insert key uri h handlers,
      )

  register_handlers-IsSorted :
      (service : Text) (messages : List (Text × H)) (handlers : Handlers H)
      → IsSorted handlers
      → IsSorted (register_handlers hash service messages handlers)
  unfolding register_handlers add_handler
  register_handlers-IsSorted service [] handlers sorted = sorted
  register_handlers-IsSorted service ((path, h) ∷ messages) handlers sorted =
      let uri = hash (to_uri_path service path) in
      register_handlers-IsSorted service messages (BTreeMap.insert uri h handlers)
        (insert-IsSorted uri h handlers sorted)

  get-new :
      (service : Text) (key : HandlerKey) (messages : List (Text × H))
      → get key (register_handlers hash service messages []) ≡ registered hash service messages key
  unfolding get
  get-new service key messages = ground (arith, get-register_handlers service key messages [])

  -- A request finds the handler that its service was added with, the last one where the hashes of
  -- two paths are equal; every other path is answered as before.
  pub get_handler-add_service :
      (service : Text) (messages : List (Text × H)) (uri : Text) (self : ServerState H)
      → get_handler hash uri (add_service hash service messages self)
        ≡ or_else (registered hash service messages (hash uri)) (get_handler hash uri self)
  unfolding get_handler add_service add_handlers
  get_handler-add_service service messages uri self =
      let new = register_handlers hash service messages [] in
      get-extend_handlers (hash uri) new self.handlers
        (register_handlers-IsSorted service messages [] tt)
      ∙ ap (λ o. or_else o (get (hash uri) self.handlers)) (get-new service (hash uri) messages)

  get_handler-remove :
      (service uri : Text) (uris : List HandlerKey) (self : ServerState H)
      → get service self.services ≡ some uris
      → get_handler hash uri (remove_handlers service self)
        ≡ (if contains (hash uri) uris then get_handler hash uri self else none)
  unfolding get_handler remove_handlers
  get_handler-remove service uri uris self e =
      rw (remove_handlers, e) (get-retain (hash uri) uris self.handlers)

  -- A service with a message is listed once it has been added.
  add_service-listed :
      (service path : Text) (handler : H) (messages : List (Text × H)) (self : ServerState H)
      → get service (add_service hash service ((path, handler) ∷ messages) self).services ≢ none
  unfolding add_service add_handlers has contains
  add_service-listed service path handler messages self e =
      let new = register_handlers hash service ((path, handler) ∷ messages) [] in
      let key = hash (to_uri_path service path) in
      ground (
        arith,
        keys-add_keys service service key new self.services,
        get-new service key ((path, handler) ∷ messages),
        text_beq_iff service service,
      )

  -- A server that adds a service with some message and then removes it answers exactly the messages
  -- of that service: its handlers are still there, and those of every other service are gone.
  pub get_handler-remove_handlers :
      (service : Text) (path : Text) (handler : H) (messages : List (Text × H)) (uri : Text)
      (self : ServerState H)
      → get service self.services ≡ none
      → let added = add_service hash service ((path, handler) ∷ messages) self in
        get_handler hash uri (remove_handlers service added)
        ≡ registered hash service ((path, handler) ∷ messages) (hash uri)
  unfolding get_handler add_service add_handlers has contains
  get_handler-remove_handlers service path handler messages uri self fresh =
      let new = register_handlers hash service ((path, handler) ∷ messages) [] in
      let key = hash uri in
      let added = add_service hash service ((path, handler) ∷ messages) self in
      elim (Option-cases (get service added.services)) [
        | inl e ↦ absurd (add_service-listed service path handler messages self e)
        | inr (uris, e) ↦ ground (
          arith,
          get_handler-remove service uri uris added e,
          get_handler-add_service service ((path, handler) ∷ messages) uri self,
          keys-add_keys service service key new self.services,
          get-new service key ((path, handler) ∷ messages),
          text_beq_iff service service,
        )
      ]
