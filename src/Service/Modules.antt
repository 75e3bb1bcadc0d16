-- ===== src/Service/Modules.antt =====
-- internal/service: the registry of modules, and the modules that cmd/service/main.go registers.
use test_go_server.Prelude.{
  ℕ, List, [], ◌∷◌, Option, none, some, Bool, false, ◌||◌, if◌then◌else◌, ◌==◌, ◌≡◌, refl, lookup,
  insert, arith,
}
use test_go_server.Protocol.{Bytes, Error, msg_login_req}
use test_go_server.Text.{bytes_eq}
use test_go_server.Registry.{Registry, register, get}

-- service.HandlerFunc: the handlers of the modules.
pub data HandlerFunc : Type 0 where
  on_login on_chat : HandlerFunc

abbrev pub msg_chat_send : ℕ
msg_chat_send = 2001

-- service.Module, by its two implementations.
pub data Module : Type 0 where
  login_module chat_module : Module

unfoldable pub name : Module → Bytes
name login_module = b'l' ∷ b'o' ∷ b'g' ∷ b'i' ∷ b'n' ∷ []
name chat_module = b'c' ∷ b'h' ∷ b'a' ∷ b't' ∷ []

-- Init of either module gives no error.
unfoldable pub init : Module → Option Error
init login_module = none
init chat_module = none

unfoldable pub register_handlers :
    Module → Registry HandlerFunc → Registry HandlerFunc × Option Error
register_handlers login_module reg = register msg_login_req on_login reg
register_handlers chat_module reg = register msg_chat_send on_chat reg

-- service.Registry; the modules by their names.
pub record ModuleRegistry : Type 0 where
  pub modules : List (Bytes × Module)
  pub handlers : Registry HandlerFunc

pub data RegisterError : Type 0 where
  module_registered : RegisterError
  init_failed handlers_failed : Error → RegisterError

-- NewRegistry
unfoldable pub new_registry : ModuleRegistry
new_registry = record { modules = []; handlers = [] }

unfoldable pub has_name : Bytes → List (Bytes × Module) → Bool
has_name wanted [] = false
has_name wanted ((n, m) ∷ ms) = bytes_eq n wanted || has_name wanted ms

with_handlers :
    Module
    → ModuleRegistry
    → Registry HandlerFunc × Option Error
    → ModuleRegistry × Option RegisterError
with_handlers m r (hs, some e) = (record r { handlers = hs }, some (handlers_failed e))
with_handlers m r (hs, none) = (record { modules = (name m, m) ∷ r.modules; handlers = hs }, none)

with_init : Module → ModuleRegistry → Option Error → ModuleRegistry × Option RegisterError
unfolding with_handlers register_handlers
with_init m r (some e) = (r, some (init_failed e))
with_init m r none = with_handlers m r (register_handlers m r.handlers)

-- Registry.Register
unfoldable pub register_module : Module → ModuleRegistry → ModuleRegistry × Option RegisterError
unfolding with_init init has_name name
register_module m r =
    if has_name (name m) r.modules then (r, some module_registered) else with_init m r (init m)

-- Registry.GetHandler
unfoldable pub get_handler : ℕ → ModuleRegistry → Option HandlerFunc
unfolding get
get_handler msg r = get msg r.handlers

-- The modules of the service process.
unfoldable pub service_registry : ModuleRegistry
unfolding register_module
service_registry = (register_module chat_module (register_module login_module new_registry).0).0

-- The two modules register without an error, and their handlers are found by their two numbers and
-- by no other.
pub get_handler-service_registry :
    (msg : ℕ)
    → ((register_module login_module new_registry).1 ≡ none)
      × ((register_module chat_module (register_module login_module new_registry).0).1 ≡ none)
      × (get_handler msg service_registry
          ≡ (if msg == 1001 then some on_login else if msg == 2001 then some on_chat else none))
unfolding get_handler service_registry register register_module new_registry lookup insert get
    bytes_eq
get_handler-service_registry msg = (refl, refl, ground arith)
