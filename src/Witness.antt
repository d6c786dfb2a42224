-- ===== src/Witness.antt =====
-- headers/witness-inject/witness.h
pub mod Yaml
pub mod Paths
use clang_witness_inject.Prelude.{ℕ, List, Text}

pub record Location : Type 0 where
  pub filepath : Text
  pub line : ℕ  -- uint64_t
  pub column : ℕ  -- uint32_t
  pub function : Text

pub data InvariantType : Type 0 where
  location loop : InvariantType

pub data InvariantFormat : Type 0 where
  c_expression : InvariantFormat

pub record Invariant : Type 0 where
  pub type : InvariantType
  pub location : Location
  pub value : Text
  pub format : InvariantFormat

pub record InvariantItem : Type 0 where
  pub invariant : Invariant

pub data EntryType : Type 0 where
  invariant_set : EntryType

pub record Entry : Type 0 where
  pub entry_type : EntryType
  pub content : List InvariantItem
