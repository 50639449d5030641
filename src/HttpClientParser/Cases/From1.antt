-- ===== src/HttpClientParser/Cases/From1.antt =====
-- `case 1` to `case 26` of src/http11/httpclient_parser.c.
use mongrel.Prelude.{[], ◌∷◌}
use mongrel.Ragel.{Switch, goto, when, st0, st, eq, ge, gt, is, lt, within}
use mongrel.HttpClientParser.{Action}
use mongrel.HttpClientParser.Labels.{
  tr0, tr2, tr3, tr4, tr6, tr7, tr8, tr9, tr10, tr12, tr13, tr14, tr15, tr16, tr18, tr26, tr27,
  tr28, tr30, tr32, tr33, tr35, tr36, tr37, tr39, tr40, tr41, tr42, tr43, tr45, tr46,
}

abbrev pub case_1 : Switch Action
case_1 = when (eq 72) (goto tr2) (
    when (lt 65) (when (within 48 57) (goto tr0) (goto st0))
      (when (gt 70) (when (within 97 102) (goto tr0) (goto st0)) (goto tr0)))

abbrev pub case_2 : Switch Action
case_2 = when (eq 10) (goto tr3) (
    when (eq 13) (goto tr4) (
      when (eq 59) (goto tr6) (
        when (lt 65) (when (within 48 57) (goto (st 2)) (goto st0))
          (when (gt 70) (when (within 97 102) (goto (st 2)) (goto st0)) (goto (st 2))))))

abbrev pub case_3 : Switch Action
case_3 = when (eq 10) (goto tr7) (goto st0)

abbrev pub case_4 : Switch Action
case_4 = when (is (33 ∷ 124 ∷ 126 ∷ [])) (goto tr8) (
    when (lt 45)
      (when (gt 39) (when (within 42 43) (goto tr8) (goto st0))
        (when (ge 35) (goto tr8) (goto st0)))
      (when (gt 46)
        (when (lt 65) (when (within 48 57) (goto tr8) (goto st0))
          (when (gt 90) (when (within 94 122) (goto tr8) (goto st0)) (goto tr8)))
        (goto tr8)))

abbrev pub case_5 : Switch Action
case_5 = when (eq 10) (goto tr9) (
    when (eq 13) (goto tr10) (
      when (is (33 ∷ 124 ∷ 126 ∷ [])) (goto (st 5)) (
        when (eq 59) (goto tr12) (
          when (eq 61) (goto tr13) (
            when (lt 45)
              (when (gt 39) (when (within 42 43) (goto (st 5)) (goto st0))
                (when (ge 35) (goto (st 5)) (goto st0)))
              (when (gt 46)
                (when (lt 65) (when (within 48 57) (goto (st 5)) (goto st0))
                  (when (gt 90) (when (within 94 122) (goto (st 5)) (goto st0)) (goto (st 5))))
                (goto (st 5))))))))

abbrev pub case_6 : Switch Action
case_6 = when (is (33 ∷ 124 ∷ 126 ∷ [])) (goto tr14) (
    when (lt 45)
      (when (gt 39) (when (within 42 43) (goto tr14) (goto st0))
        (when (ge 35) (goto tr14) (goto st0)))
      (when (gt 46)
        (when (lt 65) (when (within 48 57) (goto tr14) (goto st0))
          (when (gt 90) (when (within 94 122) (goto tr14) (goto st0)) (goto tr14)))
        (goto tr14)))

abbrev pub case_7 : Switch Action
case_7 = when (eq 10) (goto tr15) (
    when (eq 13) (goto tr16) (
      when (is (33 ∷ 124 ∷ 126 ∷ [])) (goto (st 7)) (
        when (eq 59) (goto tr18) (
          when (lt 45)
            (when (gt 39) (when (within 42 43) (goto (st 7)) (goto st0))
              (when (ge 35) (goto (st 7)) (goto st0)))
            (when (gt 46)
              (when (lt 65) (when (within 48 57) (goto (st 7)) (goto st0))
                (when (gt 90) (when (within 94 122) (goto (st 7)) (goto st0)) (goto (st 7))))
              (goto (st 7)))))))

abbrev pub case_8 : Switch Action
case_8 = when (eq 84) (goto (st 9)) (goto st0)

abbrev pub case_9 : Switch Action
case_9 = when (eq 84) (goto (st 10)) (goto st0)

abbrev pub case_10 : Switch Action
case_10 = when (eq 80) (goto (st 11)) (goto st0)

abbrev pub case_11 : Switch Action
case_11 = when (eq 47) (goto (st 12)) (goto st0)

abbrev pub case_12 : Switch Action
case_12 = when (within 48 57) (goto (st 13)) (goto st0)

abbrev pub case_13 : Switch Action
case_13 = when (eq 46) (goto (st 14)) (when (within 48 57) (goto (st 13)) (goto st0))

abbrev pub case_14 : Switch Action
case_14 = when (within 48 57) (goto (st 15)) (goto st0)

abbrev pub case_15 : Switch Action
case_15 = when (eq 32) (goto tr26) (when (within 48 57) (goto (st 15)) (goto st0))

abbrev pub case_16 : Switch Action
case_16 = when (within 48 57) (goto tr27) (goto st0)

abbrev pub case_17 : Switch Action
case_17 = when (eq 32) (goto tr28) (when (within 48 57) (goto (st 17)) (goto st0))

abbrev pub case_18 : Switch Action
case_18 = when (eq 10) (goto st0) (goto tr30)

abbrev pub case_19 : Switch Action
case_19 = when (eq 10) (goto tr32) (when (eq 13) (goto tr33) (goto (st 19)))

abbrev pub case_20 : Switch Action
case_20 = when (eq 10) (goto tr7) (
    when (eq 13) (goto (st 3)) (
      when (is (33 ∷ 124 ∷ 126 ∷ [])) (goto tr35) (
        when (is (67 ∷ 99 ∷ [])) (goto tr36) (
          when (is (84 ∷ 116 ∷ [])) (goto tr37) (
            when (lt 45)
              (when (gt 39) (when (within 42 43) (goto tr35) (goto st0))
                (when (ge 35) (goto tr35) (goto st0)))
              (when (gt 46)
                (when (lt 65) (when (within 48 57) (goto tr35) (goto st0))
                  (when (gt 90) (when (within 94 122) (goto tr35) (goto st0)) (goto tr35)))
                (goto tr35)))))))

abbrev pub case_21 : Switch Action
case_21 = when (is (33 ∷ 124 ∷ 126 ∷ [])) (goto (st 21)) (
    when (eq 58) (goto tr39) (
      when (lt 45)
        (when (gt 39) (when (within 42 43) (goto (st 21)) (goto st0))
          (when (ge 35) (goto (st 21)) (goto st0)))
        (when (gt 46)
          (when (lt 65) (when (within 48 57) (goto (st 21)) (goto st0))
            (when (gt 90) (when (within 94 122) (goto (st 21)) (goto st0)) (goto (st 21))))
          (goto (st 21)))))

abbrev pub case_22 : Switch Action
case_22 = when (eq 10) (goto tr42) (
    when (eq 13) (goto tr43)
      (when (eq 32) (goto tr41) (when (within 9 12) (goto tr41) (goto tr40))))

abbrev pub case_23 : Switch Action
case_23 = when (eq 10) (goto tr45) (when (eq 13) (goto tr46) (goto (st 23)))

abbrev pub case_24 : Switch Action
case_24 = when (eq 10) (goto (st 20)) (goto st0)

abbrev pub case_25 : Switch Action
case_25 = when (is (33 ∷ 124 ∷ 126 ∷ [])) (goto (st 21)) (
    when (eq 58) (goto tr39) (
      when (is (79 ∷ 111 ∷ [])) (goto (st 26)) (
        when (lt 45)
          (when (gt 39) (when (within 42 43) (goto (st 21)) (goto st0))
            (when (ge 35) (goto (st 21)) (goto st0)))
          (when (gt 46)
            (when (lt 65) (when (within 48 57) (goto (st 21)) (goto st0))
              (when (gt 90) (when (within 94 122) (goto (st 21)) (goto st0)) (goto (st 21))))
            (goto (st 21))))))

abbrev pub case_26 : Switch Action
case_26 = when (is (33 ∷ 124 ∷ 126 ∷ [])) (goto (st 21)) (
    when (eq 58) (goto tr39) (
      when (is (78 ∷ 110 ∷ [])) (goto (st 27)) (
        when (lt 45)
          (when (gt 39) (when (within 42 43) (goto (st 21)) (goto st0))
            (when (ge 35) (goto (st 21)) (goto st0)))
          (when (gt 46)
            (when (lt 65) (when (within 48 57) (goto (st 21)) (goto st0))
              (when (gt 90) (when (within 94 122) (goto (st 21)) (goto st0)) (goto (st 21))))
            (goto (st 21))))))
