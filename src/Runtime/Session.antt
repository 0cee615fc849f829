-- ===== src/Runtime/Session.antt =====
-- A database session over the rows of one item, beside the world that the adapters act on.
-- `commit` saves the rows; where an exception leaves the session's block the caller is left with
-- the saved rows, as src/mnema/jobs/database.py rolls the rest back. What the adapters did to the
-- world stays.
use mnema.Prelude.{Option, none, some, String, DateTime, if◌then◌else◌}
use mnema.Security.Redaction.{Value, Patterns}
use mnema.Runtime.Errors.{Error, file_not_found, os_error, invalid_transition, Result, ok, err}
use mnema.Runtime.Files.{FilePath, directory, Files, write}
use mnema.Domain.States.{ArchiveState, state_eq}
use mnema.Jobs.Models.Archive.{ArchiveItem}
use mnema.Jobs.StateService.{Ledger, transition_item}

-- `Ext` is what lies beyond the file system: the source, the backup repository, the bucket.
pub record World (Ext : Type 0) : Type 0 where
  pub files : Files
  pub clock : DateTime
  pub ext : Ext

pub record Session (Ext : Type 0) : Type 0 where
  pub world : World Ext
  pub ledger : Ledger
  pub saved : Ledger

abbrev pub Action : Type 0 → Type 0 → Type 0
Action Ext A = Session Ext → Result A × Session Ext

module _ {Ext : Type 0} where
  abbrev pub pure : {A : Type 0} → A → Action Ext A
  pure a s = (ok a, s)

  abbrev pub raise : {A : Type 0} → Error → Action Ext A
  raise e s = (err e, s)

  -- A call of an adapter.
  abbrev pub call : {A : Type 0} → (World Ext → Result A × World Ext) → Action Ext A
  call f s = let (r, w) = f s.world in (r, record s { world = w })

  abbrev pub utcnow : Action Ext DateTime
  utcnow s = (ok s.world.clock, s)

  abbrev pub get_item : Action Ext ArchiveItem
  get_item s = (ok s.ledger.item, s)

  abbrev pub set_item : (ArchiveItem → ArchiveItem) → Action Ext (Unit {0})
  set_item f s = (ok tt, record s { ledger = record (s.ledger) { item = f s.ledger.item } })

  -- `session.commit()`
  abbrev pub commit : Action Ext (Unit {0})
  commit s = (ok tt, record s { saved = s.ledger })

  abbrev pub noted : Session Ext → Option Ledger → Result (Unit {0}) × Session Ext
  noted s none = (err invalid_transition, s)
  noted s (some l) = (ok tt, record s { ledger = l })

  -- `transition_item(session, item, target, actor=..., details=...)`
  abbrev pub transition : Patterns → ArchiveState → String → Value → Action Ext (Unit {0})
  transition re target actor details s = noted s (transition_item re s.ledger target actor details)

  -- `try: ... except` over the error alone: the handler runs in the state that the body left.
  abbrev pub catch : {A : Type 0} → Action Ext A → (Error → Action Ext A) → Action Ext A
  catch m handler s = let (r, t) = m s in elim r [ ok a ↦ (ok a, t) | err e ↦ handler e t ]

  -- `path.unlink()`
  abbrev pub unlink : FilePath → Action Ext (Unit {0})
  unlink path s = elim (s.world.files path) [
    | none ↦ (err file_not_found, s)
    | some (directory n) ↦ (err os_error, s)
    | some found ↦
        (ok tt, record s { world = record (s.world) { files = write path none s.world.files } })
  ]

  -- `if item.state == ...:`
  abbrev pub when_state : ArchiveState → Action Ext (Unit {0}) → Action Ext (Unit {0})
  when_state state body s = if state_eq s.ledger.item.state state then body s else (ok tt, s)

-- What follows a call, by how the call ended.
abbrev pub after :
    {Ext A B : Type 0} → (A → Action Ext B) → Result A × Session Ext → Result B × Session Ext
after f (ok a, t) = f a t
after f (err e, t) = (err e, t)

infixl 5 ◌>>=◌ ◌>>◌
abbrev pub ◌>>=◌ : {Ext A B : Type 0} → Action Ext A → (A → Action Ext B) → Action Ext B
◌>>=◌ m f s = after f (m s)

abbrev pub ◌>>◌ : {Ext A B : Type 0} → Action Ext A → Action Ext B → Action Ext B
m >> k = m >>= λ _. k
