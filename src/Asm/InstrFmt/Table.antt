-- ===== src/Asm/InstrFmt/Table.antt =====
-- The whole table, `INSTR_TBL`, in the order of the source.
mod Rows0
mod Rows1
mod Rows2
mod Rows3
use Rows0.{rows_00, rows_10, rows_20, rows_30}
use Rows1.{rows_40, rows_50, rows_60, rows_70}
use Rows2.{rows_80, rows_90, rows_a0, rows_b0}
use Rows3.{rows_c0, rows_d0, rows_e0, rows_f0}
use dis.Prelude.{List, ◌++◌}
use dis.Asm.InstrFmt.Types.{InstrFmt}

unfoldable pub instr_tbl : List InstrFmt
unfolding rows_00 rows_10 rows_20 rows_30 rows_40 rows_50 rows_60 rows_70 rows_80 rows_90 rows_a0
    rows_b0 rows_c0 rows_d0 rows_e0 rows_f0
instr_tbl =
    (rows_00
      ++ (rows_10
          ++ (rows_20
              ++ (rows_30
                  ++ (rows_40
                      ++ (rows_50
                          ++ (rows_60
                              ++ (rows_70
                                  ++ (rows_80
                                      ++ (rows_90
                                          ++ (rows_a0
                                              ++ (rows_b0
                                                  ++ (rows_c0
                                                      ++ (rows_d0
                                                          ++ (rows_e0 ++ rows_f0)))))))))))))))
