-- ===== src/Clock.antt =====
-- internal/simclock/clock.go and cost.go: the virtual clock, in hundredths of a virtual
-- millisecond, and the published cost table.
-- The clock, like every counter of the package, is an int64 that starts at 0 and only grows; it is
-- a native number here, which is the code as long as no counter passes 2^63 - 1.
use integrations_challenge.Prelude.{ℕ, ◌+◌, ◌*◌, ◌/◌, Option, none, some}
use integrations_challenge.Prelude.Int.{ℤ, pos, negsuc}

abbrev pub vms100_per_vms : ℕ
vms100_per_vms = 100

-- Clock.Advance; `none` is the panic on a negative delta.
unfoldable pub advance : ℕ → ℤ → Option ℕ
advance vms100 (pos delta) = some (vms100 + delta)
advance vms100 (negsuc delta) = none

-- Clock.Now: whole virtual milliseconds.
unfoldable pub now : ℕ → ℕ
now vms100 = vms100 / vms100_per_vms

-- `if v < 0 { v = 0 }`
abbrev pub clamp : ℤ → ℕ
clamp (pos n) = n
clamp (negsuc n) = 0

pub data EndpointClass : Type 0 where
  erp_list_page erp_single_get erp_soap_rate_table erp_document_post : EndpointClass
  erp_batch_document_post erp_auth_token twin_open_batch twin_records_chunk : EndpointClass
  twin_commit twin_single_put twin_outbox_list twin_acks twin_auth_token : EndpointClass
  unrecognized : EndpointClass

-- costRow: the base and the cost of one record.
unfoldable pub cost_row : EndpointClass → ℕ × ℕ
cost_row erp_list_page = (4000, 50)
cost_row erp_single_get = (2500, 0)
cost_row erp_soap_rate_table = (12000, 20)
cost_row erp_document_post = (6000, 0)
cost_row erp_batch_document_post = (6000, 800)
cost_row erp_auth_token = (1000, 0)
cost_row twin_open_batch = (3000, 0)
cost_row twin_records_chunk = (2000, 15)
cost_row twin_commit = (2000, 0)
cost_row twin_single_put = (2000, 0)
cost_row twin_outbox_list = (3000, 10)
cost_row twin_acks = (2000, 5)
cost_row twin_auth_token = (1000, 0)
cost_row unrecognized = (0, 0)

unfoldable pub cost : EndpointClass → ℤ → ℕ
unfolding cost_row
cost class records = let (base, per_record) = cost_row class in base + per_record * clamp records
