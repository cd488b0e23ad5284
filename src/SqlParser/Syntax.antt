-- ===== src/SqlParser/Syntax.antt =====
-- The statements of include/mosaicdb/sql_parser.h.
use nexus_db_main.Common.{List, [], ◌∷◌, Bytes, Bool, true, false}
use nexus_db_main.Common.Int.{ℤ}
use nexus_db_main.Types.{Value}
use nexus_db_main.Schema.{ColumnDef}

pub data CompOp : Type 0 where
  comp_eq comp_ne comp_lt comp_gt comp_le comp_ge : CompOp

pub data LogicOp : Type 0 where
  logic_and logic_or : LogicOp

pub record Condition : Type 0 where
  pub column : Bytes
  pub op : CompOp
  pub value : Value

pub record WhereClause : Type 0 where
  pub conditions : List Condition
  pub logic_ops : List LogicOp

abbrev pub no_where : WhereClause
no_where = record { conditions = []; logic_ops = [] }

-- `WhereClause::empty`.
abbrev pub is_empty_where : WhereClause → Bool
is_empty_where w = elim w.conditions [ [] ↦ true | ◌∷◌ c cs ↦ false ]

pub record Assignment : Type 0 where
  pub column : Bytes
  pub value : Value

pub record CreateTableStmt : Type 0 where
  pub table_name : Bytes
  pub columns : List ColumnDef
  pub primary_key : Bytes

pub record DropTableStmt : Type 0 where
  pub table_name : Bytes
  pub if_exists : Bool

pub record InsertStmt : Type 0 where
  pub table_name : Bytes
  pub columns : List Bytes
  pub values : List Value

pub record SelectStmt : Type 0 where
  pub table_name : Bytes
  pub columns : List Bytes
  pub select_all : Bool
  pub filter : WhereClause
  pub order_by : Bytes
  pub order_desc : Bool
  pub limit : ℤ

pub record UpdateStmt : Type 0 where
  pub table_name : Bytes
  pub assignments : List Assignment
  pub filter : WhereClause

pub record DeleteStmt : Type 0 where
  pub table_name : Bytes
  pub filter : WhereClause

pub record DescribeStmt : Type 0 where
  pub table_name : Bytes

pub data Statement : Type 0 where
  create_table : CreateTableStmt → Statement
  drop_table : DropTableStmt → Statement
  insert : InsertStmt → Statement
  select : SelectStmt → Statement
  update : UpdateStmt → Statement
  delete : DeleteStmt → Statement
  show_tables : Statement
  describe : DescribeStmt → Statement
