-- ===== src/Entities/Types.antt =====
-- src/caqrs/entities/types.py: the records of the entity store. A time is a number of microseconds, a
-- value of a market point is a decimal of type `A`.
use caqrs.Prelude.{
  ℕ, Bool, true, String, List, Option, ◌==◌, ◌&&◌, str_eq, str_eq_iff, ◌≡◌, ◌↔◌, arith,
}

pub data Source : Type 0 where
  jquants yfinance polymarket_clob polymarket_gamma polymarket_archive edinet edinetdb : Source

pub data IdentifierKind : Type 0 where
  jquants_code sec_code yfinance_ticker edinet_code jcn lei polymarket_token : IdentifierKind

-- `kind.value`
abbrev pub kind_value : IdentifierKind → String
kind_value jquants_code = "jquants_code"
kind_value sec_code = "sec_code"
kind_value yfinance_ticker = "yfinance_ticker"
kind_value edinet_code = "edinet_code"
kind_value jcn = "jcn"
kind_value lei = "lei"
kind_value polymarket_token = "polymarket_token"

-- The position in the enum.
abbrev pub kind_index : IdentifierKind → ℕ
kind_index jquants_code = 0
kind_index sec_code = 1
kind_index yfinance_ticker = 2
kind_index edinet_code = 3
kind_index jcn = 4
kind_index lei = 5
kind_index polymarket_token = 6

pub record Identifier : Type 0 where
  pub kind : IdentifierKind
  pub value : String

-- `_identifier_key`, and the equality of two keys.
unfoldable pub same_key : Identifier → Identifier → Bool
same_key a b = kind_index a.kind == kind_index b.kind && str_eq a.value b.value

kind_index_injective : (a b : IdentifierKind) → kind_index a ≡ kind_index b → a ≡ b
kind_index_injective a b h = ground arith

pub same_key_iff : (a b : Identifier) → (same_key a b ≡ true) ↔ (a ≡ b)
unfolding same_key
same_key_iff a b = (
  λ h. ground (arith, kind_index_injective a.kind b.kind, str_eq_iff a.value b.value),
  λ h. ground (arith, str_eq_iff a.value b.value),
)

pub record Issuer : Type 0 where
  pub id : String
  pub lei : Option String
  pub jcn : Option String
  pub display_name : String
  pub identifiers : List Identifier

pub record Provenance : Type 0 where
  pub source : Source
  pub fetched_at : ℕ
  pub payload_hash : String
  pub cache_key : Option String

pub data MarketSeriesKind : Type 0 where
  daily_open daily_high daily_low daily_close daily_adj_close daily_volume polymarket_midpoint :
      MarketSeriesKind

-- The positions in the enums.
abbrev pub source_index : Source → ℕ
source_index jquants = 0
source_index yfinance = 1
source_index polymarket_clob = 2
source_index polymarket_gamma = 3
source_index polymarket_archive = 4
source_index edinet = 5
source_index edinetdb = 6

abbrev pub series_index : MarketSeriesKind → ℕ
series_index daily_open = 0
series_index daily_high = 1
series_index daily_low = 2
series_index daily_close = 3
series_index daily_adj_close = 4
series_index daily_volume = 5
series_index polymarket_midpoint = 6

pub record MarketPoint {ℓ} (A : Type ℓ) : Type ℓ where
  pub timestamp : ℕ
  pub value : A
  pub provenance : Provenance

pub record Filing : Type 0 where
  pub issuer_id : String
  pub doc_id : String
  pub doc_type_code : String
  pub submitted_at : ℕ
  pub parent_doc_id : Option String
  pub provenance : Provenance

pub data RelationKind : Type 0 where
  subsidiary_of large_shareholder_of public_tender_target polymarket_subject : RelationKind

abbrev pub relation_index : RelationKind → ℕ
relation_index subsidiary_of = 0
relation_index large_shareholder_of = 1
relation_index public_tender_target = 2
relation_index polymarket_subject = 3

pub record Relation : Type 0 where
  pub from_id : String
  pub to_id : String
  pub kind : RelationKind
  pub valid_from : ℕ
  pub valid_to : Option ℕ
  pub provenance : Provenance
