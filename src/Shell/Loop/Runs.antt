-- ===== src/Shell/Loop/Runs.antt =====
-- Runs of the loop: keys, requests and interrupts in any order.
use openkernel.Base.{ℕ, ◌≡◌}
use openkernel.Keyboard.Events.{keyboard_irq_handler}
use openkernel.Graphics.Ports.{Machine}
use openkernel.Shell.State.{Shell, running}
use openkernel.Shell.Loop.{take_key, take_toggle, take_requests}
use openkernel.Shell.Loop.Valid.{BuffersValid}
use openkernel.Shell.Loop.Keys.{take_key-Valid}
use openkernel.Shell.Loop.Requests.{take_toggle-Valid, take_requests-Valid}

-- What happens to the shell: while it runs, the loop takes a toggle, a key or the requests, and the
-- keyboard interrupts it at any time.
pub data Step {S : Type 0} (io : Machine S) : Shell S → Shell S → Type 0 where
  toggle : (s : Shell S) → s.outcome ≡ running → Step io s (take_toggle io s)
  key : (s : Shell S) → s.outcome ≡ running → Step io s (take_key io s)
  requests : (s : Shell S) → s.outcome ≡ running → Step io s (take_requests io s)
  interrupt :
      (s : Shell S) (scancode : ℕ)
      → Step io s (record s { keyboard = keyboard_irq_handler scancode s.keyboard })

pub data Runs {S : Type 0} (io : Machine S) (s : Shell S) : Shell S → Type 0 where
  started : Runs io s s
  next : {t u : Shell S} → Runs io s t → Step io t u → Runs io s u

Step-Valid :
    {S : Type 0} (io : Machine S) {s t : Shell S} → Step io s t → BuffersValid s → BuffersValid t
Step-Valid io (toggle s on) v = take_toggle-Valid io s v
Step-Valid io (key s on) v = take_key-Valid io s v
Step-Valid io (requests s on) v = take_requests-Valid io s v
Step-Valid io (interrupt s scancode) v = record { text = v.text; pseudo = v.pseudo }

-- Whatever keys and requests the loop takes, whatever the commands do that they run, and wherever the
-- keyboard interrupts: both command buffers keep their cursor in the command and their NUL inside
-- the array, if they do at the start.
pub Runs-BuffersValid :
    {S : Type 0} (io : Machine S) {s t : Shell S} → Runs io s t → BuffersValid s → BuffersValid t
Runs-BuffersValid io started v = v
Runs-BuffersValid io (next r st) v = Step-Valid io st (Runs-BuffersValid io r v)
