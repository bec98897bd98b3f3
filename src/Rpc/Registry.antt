-- ===== src/Rpc/Registry.antt =====
-- The table of handlers of a server (datacake-rpc/src/lib.rs, handler.rs and server.rs). The hash
-- is the standard library's `DefaultHasher` over the path: an argument.
use datacake.Base.{ℕ, ◌==◌, ◌||◌, Option, none, some, List, [], ◌∷◌, ◌++◌, if◌then◌else◌}
use datacake.Base.Ord.{nat_ord}
use datacake.Base.TextOrd.{text_ord}
use datacake.Base.Assoc.{get, remove}
use datacake.Base.BTreeMap
use datacake.Base.BTreeSet
use datacake.Base.BTreeSet.{contains}
use datacake.Base.Text.{Text}

abbrev pub HandlerKey : Type 0
HandlerKey = ℕ

abbrev pub Handlers : Type 0 → Type 0
Handlers H = List (HandlerKey × H)

-- `parameter.replace(['<', '>'], "-")`.
unfoldable pub sanitise : Text → Text
sanitise [] = []
sanitise (c ∷ s) = (if c == b'<' || c == b'>' then b'-' else c) ∷ sanitise s

unfoldable pub to_uri_path : Text → Text → Text
unfolding sanitise
to_uri_path service path = b'/' ∷ (sanitise service ++ b'/' ∷ sanitise path)

pub record ServerState (H : Type 0) : Type 0 where
  pub services : List (Text × List HandlerKey)
  pub handlers : Handlers H

-- A call of `add_handler` for each message of a service: the path of the message and its handler.
unfoldable pub add_handler :
    {H : Type 0} → (Text → HandlerKey) → Text → Text → H → Handlers H → Handlers H
unfolding to_uri_path
add_handler hash service_name path handler handlers =
    BTreeMap.insert (hash (to_uri_path service_name path)) handler handlers

-- `Svc::register_handlers`, as the sequence of its calls.
unfoldable pub register_handlers :
    {H : Type 0} → (Text → HandlerKey) → Text → List (Text × H) → Handlers H → Handlers H
unfolding add_handler
register_handlers hash service_name [] handlers = handlers
register_handlers hash service_name ((path, handler) ∷ rest) handlers =
    register_handlers hash service_name rest (add_handler hash service_name path handler handlers)

abbrev pub keys_of : Text → List (Text × List HandlerKey) → List HandlerKey
keys_of service services = elim (get service services) [ none ↦ [] | some keys ↦ keys ]

-- `lock.entry(service_name).or_default().insert(key)` for every key.
unfoldable pub add_keys :
    {H : Type 0} → Text → Handlers H → List (Text × List HandlerKey) → List (Text × List HandlerKey)
add_keys service_name [] services = services
add_keys service_name ((key, handler) ∷ handlers) services =
    add_keys service_name handlers
      (BTreeMap.insert service_name (BTreeSet.insert key (keys_of service_name services)) services)

-- `lock.extend(handlers)`.
unfoldable pub extend_handlers : {H : Type 0} → Handlers H → Handlers H → Handlers H
extend_handlers [] own = own
extend_handlers ((key, handler) ∷ handlers) own =
    extend_handlers handlers (BTreeMap.insert key handler own)

unfoldable pub add_handlers : {H : Type 0} → Text → Handlers H → ServerState H → ServerState H
unfolding add_keys extend_handlers
add_handlers service_name handlers self = record {
  services = add_keys service_name handlers self.services;
  handlers = extend_handlers handlers self.handlers;
}

-- `lock.retain(|key, _| uris.contains(key))`.
unfoldable pub retain : {H : Type 0} → List HandlerKey → Handlers H → Handlers H
retain uris [] = []
retain uris ((key, handler) ∷ handlers) =
    let rest = retain uris handlers in if contains key uris then (key, handler) ∷ rest else rest

unfoldable pub remove_handlers : {H : Type 0} → Text → ServerState H → ServerState H
unfolding retain
remove_handlers service self = elim (get service self.services) [
  | none ↦ self
  | some uris ↦ record {
    services = remove service self.services;
    handlers = retain uris self.handlers;
  }
]

unfoldable pub get_handler : {H : Type 0} → (Text → HandlerKey) → Text → ServerState H → Option H
get_handler hash uri self = get (hash uri) self.handlers

-- `Server::add_service`.
unfoldable pub add_service :
    {H : Type 0} → (Text → HandlerKey) → Text → List (Text × H) → ServerState H → ServerState H
unfolding register_handlers add_handlers
add_service hash service_name messages self =
    add_handlers service_name (register_handlers hash service_name messages []) self
