-- ===== src/TxQueue/Admission.antt =====
-- The outcome that `offer` of src/mesh/txqueue.py has, and why.
use sily.Base.{◌==◌, if◌then◌else◌, ℕ, Bool, ◌&&◌, Option, none}
use sily.TxQueue.Slots.{TxQueue, Origin}
use sily.TxQueue.Offer.{older}
use sily.Frame.Message.{Message}

-- The older message that `offer` looks for.
abbrev old_of : Bool → Message → Origin → TxQueue → Option ℕ
old_of replace m key q = if replace && m.cls == 0 then older key m.port q else none
