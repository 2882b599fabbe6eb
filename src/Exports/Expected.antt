-- ===== src/Exports/Expected.antt =====
-- A download whose expectation still holds is authorized (exports/services/download.py).
use svrx_pinry.Exports.Tables.{ReadyReceipt}
use svrx_pinry.Exports.Downloads.{PhysicalReceipt}

-- What is seen of the file that a receipt is about.
abbrev pub sight_of : ReadyReceipt → PhysicalReceipt
sight_of r = record { file = r.file; size = r.size; mtime_ns = r.mtime_ns; ctime_ns = r.ctime_ns }
