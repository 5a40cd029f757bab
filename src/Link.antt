-- ===== src/Link.antt =====
-- The keyboard driver over the firmware of the keyboard's controller: the SMBus transfers of the driver
-- as I2C messages that receiveEvent and requestEvent answer. Between two transfers of one reading of
-- the FIFO no key is scanned.
pub mod Receive
pub mod Round
pub mod System
pub mod Levels
pub mod PowerOff
pub mod Battery
mod Examples
use picocalc_ubuntu_kernel.Fw.Bus.{request_event, receive_event}
use picocalc_ubuntu_kernel.Fw.State.{Firmware}
use picocalc_ubuntu_kernel.Prelude.{ℕ, ◌*◌, [], ◌∷◌, List, ◌+◌}
use picocalc_ubuntu_kernel.Platform.{Platform, Ret, value, failure}

-- The two bytes of an answer, the low one first; EIO stands for a controller that sends fewer.
abbrev pub word : List ℕ → Ret ℕ
word (a ∷ b ∷ bytes) = value (a + 256 * b)
word _ = failure 5

abbrev pub byte : List ℕ → Ret ℕ
byte (a ∷ bytes) = value a
byte [] = failure 5

-- The machine is the controller and whatever the kernel's clock is.
module _ {K : Type 0} (tick : K → ℕ × K) (stack : ℕ × ℕ) where
  unfoldable pub controller : Platform (Firmware × K)
  controller = record {
    read_byte = λ d r.
        let (bytes, s) = request_event (receive_event stack (r ∷ []) d.0) in (byte bytes, (s, d.1));
    read_word = λ d r.
        let (bytes, s) = request_event (receive_event stack (r ∷ []) d.0) in (word bytes, (s, d.1));
    write_byte = λ d r v. (value 0, (receive_event stack (r ∷ v ∷ []) d.0, d.1));
    ktime = λ d. let (now, k) = tick d.1 in (now, (d.0, k));
  }
