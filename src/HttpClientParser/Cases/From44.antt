-- ===== src/HttpClientParser/Cases/From44.antt =====
-- `case 44` to `case 58` of src/http11/httpclient_parser.c.
use mongrel.Prelude.{[], ◌∷◌}
use mongrel.Ragel.{Switch, goto, when, st0, st, eq, ge, gt, is, lt, within}
use mongrel.HttpClientParser.{Action}
use mongrel.HttpClientParser.Labels.{tr39, tr71, tr72}

abbrev pub case_44 : Switch Action
case_44 = when (eq 10) (goto tr71) (
    when (eq 13) (goto tr72) (
      when (is (33 ∷ 124 ∷ 126 ∷ [])) (goto (st 21)) (
        when (eq 58) (goto tr39) (
          when (lt 45)
            (when (gt 39) (when (within 42 43) (goto (st 21)) (goto st0))
              (when (ge 35) (goto (st 21)) (goto st0)))
            (when (gt 46)
              (when (lt 65) (when (within 48 57) (goto (st 44)) (goto st0))
                (when (gt 90) (when (within 94 122) (goto (st 21)) (goto st0)) (goto (st 21))))
              (goto (st 21)))))))

abbrev pub case_45 : Switch Action
case_45 = when (is (33 ∷ 124 ∷ 126 ∷ [])) (goto (st 21)) (
    when (eq 58) (goto tr39) (
      when (is (82 ∷ 114 ∷ [])) (goto (st 46)) (
        when (lt 45)
          (when (gt 39) (when (within 42 43) (goto (st 21)) (goto st0))
            (when (ge 35) (goto (st 21)) (goto st0)))
          (when (gt 46)
            (when (lt 65) (when (within 48 57) (goto (st 21)) (goto st0))
              (when (gt 90) (when (within 94 122) (goto (st 21)) (goto st0)) (goto (st 21))))
            (goto (st 21))))))

abbrev pub case_46 : Switch Action
case_46 = when (is (33 ∷ 124 ∷ 126 ∷ [])) (goto (st 21)) (
    when (eq 58) (goto tr39) (
      when (is (65 ∷ 97 ∷ [])) (goto (st 47)) (
        when (lt 45)
          (when (gt 39) (when (within 42 43) (goto (st 21)) (goto st0))
            (when (ge 35) (goto (st 21)) (goto st0)))
          (when (gt 46)
            (when (lt 66) (when (within 48 57) (goto (st 21)) (goto st0))
              (when (gt 90) (when (within 94 122) (goto (st 21)) (goto st0)) (goto (st 21))))
            (goto (st 21))))))

abbrev pub case_47 : Switch Action
case_47 = when (is (33 ∷ 124 ∷ 126 ∷ [])) (goto (st 21)) (
    when (eq 58) (goto tr39) (
      when (is (78 ∷ 110 ∷ [])) (goto (st 48)) (
        when (lt 45)
          (when (gt 39) (when (within 42 43) (goto (st 21)) (goto st0))
            (when (ge 35) (goto (st 21)) (goto st0)))
          (when (gt 46)
            (when (lt 65) (when (within 48 57) (goto (st 21)) (goto st0))
              (when (gt 90) (when (within 94 122) (goto (st 21)) (goto st0)) (goto (st 21))))
            (goto (st 21))))))

abbrev pub case_48 : Switch Action
case_48 = when (is (33 ∷ 124 ∷ 126 ∷ [])) (goto (st 21)) (
    when (eq 58) (goto tr39) (
      when (is (83 ∷ 115 ∷ [])) (goto (st 49)) (
        when (lt 45)
          (when (gt 39) (when (within 42 43) (goto (st 21)) (goto st0))
            (when (ge 35) (goto (st 21)) (goto st0)))
          (when (gt 46)
            (when (lt 65) (when (within 48 57) (goto (st 21)) (goto st0))
              (when (gt 90) (when (within 94 122) (goto (st 21)) (goto st0)) (goto (st 21))))
            (goto (st 21))))))

abbrev pub case_49 : Switch Action
case_49 = when (is (33 ∷ 124 ∷ 126 ∷ [])) (goto (st 21)) (
    when (eq 58) (goto tr39) (
      when (is (70 ∷ 102 ∷ [])) (goto (st 50)) (
        when (lt 45)
          (when (gt 39) (when (within 42 43) (goto (st 21)) (goto st0))
            (when (ge 35) (goto (st 21)) (goto st0)))
          (when (gt 46)
            (when (lt 65) (when (within 48 57) (goto (st 21)) (goto st0))
              (when (gt 90) (when (within 94 122) (goto (st 21)) (goto st0)) (goto (st 21))))
            (goto (st 21))))))

abbrev pub case_50 : Switch Action
case_50 = when (is (33 ∷ 124 ∷ 126 ∷ [])) (goto (st 21)) (
    when (eq 58) (goto tr39) (
      when (is (69 ∷ 101 ∷ [])) (goto (st 51)) (
        when (lt 45)
          (when (gt 39) (when (within 42 43) (goto (st 21)) (goto st0))
            (when (ge 35) (goto (st 21)) (goto st0)))
          (when (gt 46)
            (when (lt 65) (when (within 48 57) (goto (st 21)) (goto st0))
              (when (gt 90) (when (within 94 122) (goto (st 21)) (goto st0)) (goto (st 21))))
            (goto (st 21))))))

abbrev pub case_51 : Switch Action
case_51 = when (is (33 ∷ 124 ∷ 126 ∷ [])) (goto (st 21)) (
    when (eq 58) (goto tr39) (
      when (is (82 ∷ 114 ∷ [])) (goto (st 52)) (
        when (lt 45)
          (when (gt 39) (when (within 42 43) (goto (st 21)) (goto st0))
            (when (ge 35) (goto (st 21)) (goto st0)))
          (when (gt 46)
            (when (lt 65) (when (within 48 57) (goto (st 21)) (goto st0))
              (when (gt 90) (when (within 94 122) (goto (st 21)) (goto st0)) (goto (st 21))))
            (goto (st 21))))))

abbrev pub case_52 : Switch Action
case_52 = when (is (33 ∷ 46 ∷ 124 ∷ 126 ∷ [])) (goto (st 21)) (
    when (eq 45) (goto (st 53)) (
      when (eq 58) (goto tr39) (
        when (lt 48)
          (when (gt 39) (when (within 42 43) (goto (st 21)) (goto st0))
            (when (ge 35) (goto (st 21)) (goto st0)))
          (when (gt 57)
            (when (gt 90) (when (within 94 122) (goto (st 21)) (goto st0))
              (when (ge 65) (goto (st 21)) (goto st0)))
            (goto (st 21))))))

abbrev pub case_53 : Switch Action
case_53 = when (is (33 ∷ 124 ∷ 126 ∷ [])) (goto (st 21)) (
    when (eq 58) (goto tr39) (
      when (is (69 ∷ 101 ∷ [])) (goto (st 54)) (
        when (lt 45)
          (when (gt 39) (when (within 42 43) (goto (st 21)) (goto st0))
            (when (ge 35) (goto (st 21)) (goto st0)))
          (when (gt 46)
            (when (lt 65) (when (within 48 57) (goto (st 21)) (goto st0))
              (when (gt 90) (when (within 94 122) (goto (st 21)) (goto st0)) (goto (st 21))))
            (goto (st 21))))))

abbrev pub case_54 : Switch Action
case_54 = when (is (33 ∷ 124 ∷ 126 ∷ [])) (goto (st 21)) (
    when (eq 58) (goto tr39) (
      when (is (78 ∷ 110 ∷ [])) (goto (st 55)) (
        when (lt 45)
          (when (gt 39) (when (within 42 43) (goto (st 21)) (goto st0))
            (when (ge 35) (goto (st 21)) (goto st0)))
          (when (gt 46)
            (when (lt 65) (when (within 48 57) (goto (st 21)) (goto st0))
              (when (gt 90) (when (within 94 122) (goto (st 21)) (goto st0)) (goto (st 21))))
            (goto (st 21))))))

abbrev pub case_55 : Switch Action
case_55 = when (is (33 ∷ 124 ∷ 126 ∷ [])) (goto (st 21)) (
    when (eq 58) (goto tr39) (
      when (is (67 ∷ 99 ∷ [])) (goto (st 56)) (
        when (lt 45)
          (when (gt 39) (when (within 42 43) (goto (st 21)) (goto st0))
            (when (ge 35) (goto (st 21)) (goto st0)))
          (when (gt 46)
            (when (lt 65) (when (within 48 57) (goto (st 21)) (goto st0))
              (when (gt 90) (when (within 94 122) (goto (st 21)) (goto st0)) (goto (st 21))))
            (goto (st 21))))))

abbrev pub case_56 : Switch Action
case_56 = when (is (33 ∷ 124 ∷ 126 ∷ [])) (goto (st 21)) (
    when (eq 58) (goto tr39) (
      when (is (79 ∷ 111 ∷ [])) (goto (st 57)) (
        when (lt 45)
          (when (gt 39) (when (within 42 43) (goto (st 21)) (goto st0))
            (when (ge 35) (goto (st 21)) (goto st0)))
          (when (gt 46)
            (when (lt 65) (when (within 48 57) (goto (st 21)) (goto st0))
              (when (gt 90) (when (within 94 122) (goto (st 21)) (goto st0)) (goto (st 21))))
            (goto (st 21))))))

abbrev pub case_57 : Switch Action
case_57 = when (is (33 ∷ 124 ∷ 126 ∷ [])) (goto (st 21)) (
    when (eq 58) (goto tr39) (
      when (is (68 ∷ 100 ∷ [])) (goto (st 58)) (
        when (lt 45)
          (when (gt 39) (when (within 42 43) (goto (st 21)) (goto st0))
            (when (ge 35) (goto (st 21)) (goto st0)))
          (when (gt 46)
            (when (lt 65) (when (within 48 57) (goto (st 21)) (goto st0))
              (when (gt 90) (when (within 94 122) (goto (st 21)) (goto st0)) (goto (st 21))))
            (goto (st 21))))))

abbrev pub case_58 : Switch Action
case_58 = when (is (33 ∷ 124 ∷ 126 ∷ [])) (goto (st 21)) (
    when (eq 58) (goto tr39) (
      when (is (73 ∷ 105 ∷ [])) (goto (st 59)) (
        when (lt 45)
          (when (gt 39) (when (within 42 43) (goto (st 21)) (goto st0))
            (when (ge 35) (goto (st 21)) (goto st0)))
          (when (gt 46)
            (when (lt 65) (when (within 48 57) (goto (st 21)) (goto st0))
              (when (gt 90) (when (within 94 122) (goto (st 21)) (goto st0)) (goto (st 21))))
            (goto (st 21))))))
