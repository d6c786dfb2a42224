-- ===== src/Clang.antt =====
-- The parts of Clang that src/util.cpp and src/inject.cpp call: source locations, the syntax tree
-- and its parent map, the lexer. They are a parameter of the model.
use clang_witness_inject.Prelude.{ℕ, ◌<◌, ◌≡◌, ◌↔◌, Bool, true, false, Option, List, In, Text}

-- What `DynTypedNode::get<T>` tells apart. `stmt` and `decl` are the statements and declarations of
-- other classes; `other` is neither.
pub data Kind : Type 0 where
  compound_stmt for_stmt while_stmt do_stmt case_stmt default_stmt label_stmt : Kind
  expr stmt function_decl decl other : Kind

abbrev pub is_expr : Kind → Bool
is_expr Kind.expr = true
is_expr _ = false

-- `get<Stmt>`: an expression is a statement.
abbrev pub is_stmt : Kind → Bool
is_stmt Kind.function_decl = false
is_stmt Kind.decl = false
is_stmt Kind.other = false
is_stmt _ = true

-- `get<Decl>`.
abbrev pub is_decl : Kind → Bool
is_decl Kind.function_decl = true
is_decl Kind.decl = true
is_decl _ = false

pub record Clang : Type 1 where
  pub Loc : Type 0  -- SourceLocation
  pub Node : Type 0  -- a DynTypedNode that is not none
  pub same_loc : Loc → Loc → Bool  -- operator==
  pub invalid : Loc  -- SourceLocation()
  pub is_invalid : Loc → Bool
  pub is_macro_id : Loc → Bool
  pub expansion_loc : Loc → Loc  -- getExpansionLoc
  pub line_col : ℕ → ℕ → Loc  -- translateLineCol of the main file
  pub is_before : Loc → Loc → Bool  -- isBeforeInTranslationUnit
  pub offset : Loc → ℕ  -- the second part of getDecomposedLoc, an `unsigned int`
  pub token_start : Loc → Loc  -- Lexer::GetBeginningOfToken
  pub token_end : Loc → Loc  -- Lexer::getLocForEndOfToken, at offset 0
  pub next_token : Loc → Option Loc  -- the location of Lexer::findNextToken
  pub kind : Node → Kind
  pub range_begin : Node → Loc  -- getSourceRange().getBegin()
  pub range_end : Node → Loc
  pub parents : Node → List Node  -- ASTContext::getParents
  pub visited : List Node  -- what TraverseDecl visits, in its order
  pub main_file : Option Text  -- the name of the main file, if it has an entry
  pub rparen : Node → Loc  -- ForStmt::getRParenLoc
  pub has_inc : Node → Bool  -- whether ForStmt::getInc is not null
  pub body : Node → Node  -- getBody of a WhileStmt or DoStmt
  pub rbrac : Node → Loc  -- CompoundStmt::getRBracLoc
  pub depth : Node → ℕ  -- how far a node lies below the translation unit

-- The syntax tree is finite and has a root: a parent lies less deep than its child.
pub record IsTree (c : Clang) : Type 0 where
  pub rises : (n p : c.Node) → In p (c.parents n) → c.depth p < c.depth n

-- `==` of locations is equality.
pub record HasSameLoc (c : Clang) : Type 0 where
  pub same_loc_iff : (k l : c.Loc) → (c.same_loc k l ≡ true) ↔ (k ≡ l)
