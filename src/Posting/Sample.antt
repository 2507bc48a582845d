-- ===== src/Posting/Sample.antt =====
-- internal/erp/posting.go: an item and the data that it is checked against, for the tests.
use integrations_challenge.Prelude.{ℕ, false, [], codes, bytes_eq, some, none, if◌then◌else◌}
use integrations_challenge.Prelude.Int.{pos}
use integrations_challenge.Decimal.{Decimal}
use integrations_challenge.Match.{Supplier, PurchaseOrder}
use integrations_challenge.Posting.{PostingItem, Masters}
use integrations_challenge.Posting.Shape.{PostingItemWire}

abbrev pub amount : ℕ → Decimal
amount n = record { unscaled = pos n; scale = 2 }

abbrev pub wire : PostingItemWire
wire = record {
  item_key = [];
  external_reference = codes " INV-1";
  company_code = codes "CH10";
  supplier_number = codes "100";
  supplier_invoice_number = codes "R-7";
  document_type = codes "RE";
  document_date = codes "2026-03-14";
  posting_date = [];
  po_number = codes "4500000012/10";
  cost_center = [];
  currency = codes "CHF";
  gross_amount = some (amount 10810);
  vat_amount = some (amount 810);
  source_currency = [];
  source_gross_amount = none;
  fx_rate = none;
  fx_rate_factor = pos 0;
}

abbrev pub item : PostingItem
item = record {
  item_key = codes "INV-1";
  external_reference = codes "INV-1";
  company_code = codes "CH10";
  supplier_number = codes "100";
  supplier_invoice_number = codes "R-7";
  document_type = codes "RE";
  document_date = codes "2026-03-14";
  posting_date = [];
  po_number = codes "4500000012/10";
  cost_center = [];
  currency = codes "CHF";
  gross_amount = amount 10810;
  vat_amount = amount 810;
  source_currency = [];
  source_gross_amount = record { unscaled = pos 0; scale = 0 };
  fx_rate = record { unscaled = pos 0; scale = 0 };
  fx_rate_factor = pos 0;
}

abbrev pub unknown : PostingItem
unknown = record item { external_reference = codes "INV-2"; supplier_number = codes "200" }

abbrev pub known_supplier : Supplier
known_supplier = record {
  supplier_number = codes "100";
  name = codes "Muster AG";
  country = codes "CH";
  currency = codes "CHF";
  iban = [];
  vat_number = [];
  payment_terms_days = pos 30;
  blocked = false;
  change_seq = pos 1;
}

abbrev pub order : PurchaseOrder
order = record {
  po_number = codes "4500000012";
  supplier_number = codes "100";
  company_code = codes "CH10";
  currency = codes "CHF";
  status = codes "OPEN";
  order_date = codes "2026-01-05";
  cost_center = [];
  change_seq = pos 1;
}

-- One supplier, and one order of 100.00.
abbrev pub masters : Masters
masters = record {
  supplier_by_number =
      λ number. if bytes_eq number (codes "100") then some known_supplier else none;
  order_by_canonical = λ number. if bytes_eq number (codes "4500000012") then some order else none;
  cost_center_by_code = λ code. none;
  po_net_total =
      λ number. if bytes_eq number (codes "4500000012") then some (amount 10000) else none;
  closed_period_before = codes "2026-02-01";
}
