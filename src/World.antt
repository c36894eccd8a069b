-- ===== src/World.antt =====
-- The state of the TypeScript runtime (the module-level variables of runtimes/ts/pkg, the file
-- system and the message client), and what the code takes from outside.
use litefunctions.Prelude.{ℕ, ◌+◌, List, [], ◌∷◌, ◌++◌, Option, if◌then◌else◌, ◌==◌}
use litefunctions.Prelude.Exec.{Result, Exec}
use litefunctions.Text.{Text}
use litefunctions.Text.Utf8.{Bytes}
use litefunctions.JsMap.{JsMap}
use litefunctions.Fs.{FilePath, Fs}
use litefunctions.Value.{Json, Value}

-- `RequestLike`: what each reader of the body resolves to.
pub record RequestLike : Type 0 where
  pub json : Result Json
  pub text : Result Text
  pub bytes : Result Bytes
  pub array_buffer : Result Bytes

-- `LoadedModule`. A user's `handle` is a function of the request: what it does to the outside is
-- not modelled. `none` stands for an export that is no function.
pub record LoadedModule : Type 0 where
  pub handle : Option (RequestLike → Result Value)

-- the end of a child process
pub record Exited : Type 0 where
  pub code : ℕ
  pub stdout : Text
  pub stderr : Text

-- `protocol`, `host` and `pathname` of a parsed URL
pub record Url : Type 0 where
  pub protocol : Text
  pub host : Text
  pub pathname : Text

-- The code outside of this repository that the runtime calls.
pub record Engine : Type 0 where
  -- `import.meta.dir` of functions.ts
  pub dir : FilePath
  -- `Bun.spawn(cmd)` and what the program does to the files
  pub spawn : List Text → Fs → Result Exited × Fs
  -- `new URL(s)`
  pub new_url : Text → Result Url
  -- what the first import of a file with this content gives
  pub evaluate : Bytes → Result LoadedModule
  -- `new TextDecoder().decode(b)` and `JSON.parse(s)`
  pub decode : Bytes → Text
  pub parse_json : Text → Result Json

-- What a subscription's loop does with a message: `consumeFunction` of a name, or `watchTSHook`.
pub data Task : Type 0 where
  exec : Text → Task
  hook : Task

pub record Subscription : Type 0 where
  pub sid : ℕ
  pub subject : Text
  pub task : Task

-- The calls that the runtime made on its connection: the subscriptions that it has not ended, and
-- what it published, in order.
pub record Client : Type 0 where
  pub open_subs : List Subscription
  pub next_sid : ℕ
  pub published : List (Text × Bytes)

-- `nc.subscribe(subject)`, which does not throw here
unfoldable pub subscribe : Text → Task → Client → ℕ × Client
subscribe subject task c = (
  c.next_sid,
  record c {
    open_subs = c.open_subs ++ record { sid = c.next_sid; subject = subject; task = task } ∷ [];
    next_sid = c.next_sid + 1;
  },
)

unfoldable pub without_sid : ℕ → List Subscription → List Subscription
without_sid n [] = []
without_sid n (s ∷ ss) = let rest = without_sid n ss in if s.sid == n then rest else s ∷ rest

-- `sub.unsubscribe()`
unfoldable pub unsubscribe : ℕ → Client → Client
unfolding without_sid
unsubscribe n c = record c { open_subs = without_sid n c.open_subs }

-- `nc.publish(subject, data)`, which does not throw here: the connection is open, and the payload is
-- not over the message server's limit
unfoldable pub publish : Text → Bytes → Client → Client
publish subject payload c = record c { published = c.published ++ (subject, payload) ∷ [] }

pub record World : Type 0 where
  pub fs : Fs
  -- `modules` and `moduleVersion` of functions.ts
  pub modules : JsMap LoadedModule
  pub module_version : ℕ
  -- the engine's registry: what each imported URL, a file and a version, evaluated to
  pub imports : List ((FilePath × ℕ) × Result LoadedModule)
  pub client : Client
  -- `CONSUMERS` of consumer.ts: the subscription that each name's `cancel` ends
  pub consumers : JsMap ℕ

abbrev pub on_fs {κ} : {A : Type κ} → Exec Fs A → Exec World A
on_fs m w = let (r, fs') = m w.fs in (r, record w { fs = fs' })
