-- ===== src/Collector/Explorer/Report.antt =====
-- pkg/collector/aws.go: the Cost and Usage Report in S3. `trim_space` is `strings.TrimSpace`, and the CSV
-- reader is known by what each of its reads returns.
use eks_financial_orchestrat.Common.Text.{ends_with}
use text.Mathlib.Text.{starts_with}
use eks_financial_orchestrat.Common.{
  ℕ, suc, String, Option, none, some, List, [], ◌∷◌, ◌++◌, foldl, get_elem?, ◌==◌, if◌then◌else◌,
}
use eks_financial_orchestrat.Common.Dict.{Dict, get, put, or_zero}
use eks_financial_orchestrat.Common.Float.{Float, ◌⊕◌}
use eks_financial_orchestrat.Common.Result.{Result, ok, err, ◌>>=◌, map_err}
use eks_financial_orchestrat.Types.{Time}
use eks_financial_orchestrat.Collector.Backoff.{Calls, RetryError, retry_with_backoff}
use eks_financial_orchestrat.Collector.Costs.{CurData, CurLineItem}
use eks_financial_orchestrat.Collector.Explorer.{
  parse_amount, trim_prefix, last_answer, max_retries,
}

-- What the reads of a CSV file return, before its end: a record, or an error.
abbrev pub CsvFile : Type 0
CsvFile = List (Result String (List String))

pub data ReportError : Type 0 where
  list_failed download_failed : RetryError → ReportError
  header_failed record_failed : String → ReportError

abbrev pub add_csv : Option String → List String → List String
add_csv none keys = keys
add_csv (some key) keys = if ends_with key ".csv" then key ∷ keys else keys

-- The keys of a listing that are kept; a key is a pointer that may be nil.
unfoldable pub csv_keys : List (Option String) → List String
csv_keys [] = []
csv_keys (k ∷ ks) = add_csv k (csv_keys ks)

abbrev no_items : {F : Type 0} ⦃fl : Float F⦄ → Time → Time → CurData F
no_items ⦃fl⦄ start end = record {
  start_time = start;
  end_time = end;
  line_items = [];
  total_cost = fl.of_nat 0;
}

module _ {F : Type 0} ⦃fl : Float F⦄ (parse_float : String → Option F)
    (trim_space : String → String) where
  unfoldable pub column_index : ℕ → List String → Dict ℕ → Dict ℕ
  column_index i [] m = m
  column_index i (c ∷ cs) m = column_index (suc i) cs (put (trim_space c) i m)

  abbrev pub field_at : List String → Option ℕ → Option String
  field_at row none = none
  field_at row (some i) = get_elem? row i

  -- `getCSVField`
  unfoldable pub get_csv_field : List String → Dict ℕ → String → String
  get_csv_field row columns name = elim (field_at row (get name columns)) [
    | none ↦ ""
    | some v ↦ trim_space v
  ]

  -- The loop over the columns; an empty field is no tag.
  abbrev pub add_resource_tag : List String → Dict String → String × ℕ → Dict String
  add_resource_tag row tags (column, i) =
      let v = or_zero "" (get_elem? row i) in
      let added = put (trim_prefix column "resourceTags/") v tags in
      if starts_with column "resourceTags/" then if v == "" then tags else added else tags

  abbrev pub cost_of_text : String → F
  cost_of_text text =
      if text == "" then fl.of_nat 0 else parse_amount parse_float (some (some text))

  unfoldable pub line_item : Dict ℕ → List String → CurLineItem F
  unfolding get_csv_field
  line_item columns row = record {
    resource_id = get_csv_field row columns "lineItem/ResourceId";
    service_code = get_csv_field row columns "product/servicecode";
    usage_type = get_csv_field row columns "lineItem/UsageType";
    purchase_option = get_csv_field row columns "pricing/purchaseOption";
    cost = cost_of_text (get_csv_field row columns "lineItem/UnblendedCost");
    tags = foldl (add_resource_tag row) [] columns;
  }

  -- The loop over the records. On an error the items so far are returned too, but no caller uses them.
  unfoldable pub read_items : Dict ℕ → CsvFile → Result ReportError (List (CurLineItem F))
  unfolding line_item
  read_items columns [] = ok []
  read_items columns (err e ∷ rest) = err (record_failed e)
  read_items columns (ok row ∷ rest) =
      read_items columns rest >>= λ items. ok (line_item columns row ∷ items)

  -- `parseCURCSV`
  unfoldable pub parse_cur_csv : CsvFile → Result ReportError (List (CurLineItem F))
  unfolding read_items column_index
  parse_cur_csv [] = err (header_failed "EOF")
  parse_cur_csv (err e ∷ rest) = err (header_failed e)
  parse_cur_csv (ok header ∷ rest) = read_items (column_index 0 header []) rest

  -- `downloadAndParseCUR`, for the outcomes and the answers of `GetObject` at the key.
  unfoldable pub download_and_parse_cur :
      (String → Calls F)
      → (String → ℕ → CsvFile)
      → String
      → Result ReportError (List (CurLineItem F))
  unfolding parse_cur_csv
  download_and_parse_cur calls files key =
      map_err download_failed (last_answer (files key) (retry_with_backoff (calls key) max_retries))
      >>= parse_cur_csv

  -- The body of the loop over the objects: what a file that fails would add is left out.
  abbrev pub add_items : CurData F → Result ReportError (List (CurLineItem F)) → CurData F
  add_items d (err e) = d
  add_items d (ok items) = record d {
    line_items = d.line_items ++ items;
    total_cost = foldl (λ t i. t ⊕ i.cost) d.total_cost items;
  }

  -- `FetchCUR`, for the outcomes and the answers of `ListObjectsV2` too.
  unfoldable pub fetch_cur :
      Calls F
      → (ℕ → List (Option String))
      → (String → Calls F)
      → (String → ℕ → CsvFile)
      → Time
      → Time
      → Result ReportError (CurData F)
  unfolding download_and_parse_cur csv_keys
  fetch_cur listing listed calls files start end = do
    objects ← map_err list_failed (last_answer listed (retry_with_backoff listing max_retries))
    ok (
        foldl (λ d key. add_items d (download_and_parse_cur calls files key)) (no_items start end)
          (csv_keys objects))
