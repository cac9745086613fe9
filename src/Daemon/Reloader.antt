-- ===== src/Daemon/Reloader.antt =====
-- main.go: watchConfigFile, the goroutine that debounces events of the config file. Its `select`
-- is a step relation: which ready case is taken, and when the timer expires, is left open.
pub mod Laws
use avella.Common.{
  ℕ, suc, ◌≡◌, Bool, true, false, not, ◌||◌, ◌&&◌, ◌==◌, Option, none, some, if◌then◌else◌,
}
use avella.Common.Text.{Text, text_eq}
use avella.Go.FilePath.{base, dir}

-- The directory that startConfigReloader watches and the name that it looks for. It gives up if
-- fsnotify makes no watcher, or cannot add the directory.
unfoldable pub start_config_reloader : Bool → (Text → Bool) → Text → Option (Text × Text)
start_config_reloader made adds path =
    if made && adds (dir path) then some (dir path, base path) else none

-- `time.Timer` behind a channel: stopped or already received from, running, or expired with its
-- value not received yet.
pub data Timer : Type 0 where
  idle running expired : Timer

-- `Stop` reports whether it kept the timer from expiring.
stop : Timer → Bool × Timer
stop idle = (false, idle)
stop running = (true, idle)
stop expired = (false, expired)

-- `select { case <-reloadTimer.C: default: }`
drain : Timer → Timer
drain idle = idle
drain running = running
drain expired = idle

-- `Reset` starts the timer again. A value that was left in the channel is gone.
reset : Timer → Timer
reset t = running

-- `reloadTimer`, whether `reloadCh` is the timer's channel or nil, and the calls of `reload`.
pub record Reloader : Type 0 where
  pub timer : Option Timer
  pub listening : Bool
  pub reloads : ℕ

abbrev pub start : Reloader
start = record { timer = none; listening = false; reloads = 0 }

-- `fsnotify.Op`, bit by bit.
pub record Op : Type 0 where
  pub create : Bool
  pub write : Bool
  pub remove : Bool
  pub rename : Bool
  pub chmod : Bool

pub record Event : Type 0 where
  pub name : Text
  pub op : Op

restart : Timer → Timer
unfolding stop drain reset
restart t = let (stopped, t') = stop t in if stopped then reset t' else reset (drain t')

-- `scheduleReload`
unfoldable pub schedule_reload : Reloader → Reloader
unfolding restart
schedule_reload s = elim s.timer [
  | none ↦ record s { timer = some running; listening = true }
  | some t ↦ record s { timer = some (restart t) }
]

-- `case event := <-cfgWatcher.Events`
unfoldable pub on_event : Text → Event → Reloader → Reloader
unfolding schedule_reload
on_event watched e s =
    if not (base e.name == watched)
    then s
    else if not (e.op.write || e.op.create || e.op.rename || e.op.chmod)
    then s
    else schedule_reload s

-- `case <-reloadCh`
unfoldable pub on_timer : Reloader → Reloader
on_timer s = record s { timer = some idle; listening = false; reloads = suc s.reloads }

-- A round of the loop, or the timer's 300 ms running out. Errors of the watcher change nothing.
pub data Step (watched : Text) : Reloader → Reloader → Type 0 where
  event : (e : Event) (s : Reloader) → Step watched s (on_event watched e s)
  watcher_error : (s : Reloader) → Step watched s s
  expire :
      (s : Reloader) → s.timer ≡ some running → Step watched s (record s { timer = some expired })
  receive :
      (s : Reloader) → s.listening ≡ true → s.timer ≡ some expired → Step watched s (on_timer s)

pub data Reach (watched : Text) (s : Reloader) : Reloader → Type 0 where
  here : Reach watched s s
  next : {t u : Reloader} → Reach watched s t → Step watched t u → Reach watched s u
