-- ===== src/HttpClientParser/Cases/From80.antt =====
-- `case 80` to `case 93` of src/http11/httpclient_parser.c.
use mongrel.Prelude.{[], ◌∷◌}
use mongrel.Ragel.{Switch, goto, when, st0, st, eq, ge, gt, is, lt, within}
use mongrel.HttpClientParser.{Action}
use mongrel.HttpClientParser.Labels.{tr39, tr45, tr46, tr70, tr100, tr107, tr108, tr124, tr125}

abbrev pub case_80 : Switch Action
case_80 = when (eq 10) (goto tr107) (
    when (eq 13) (goto tr108) (
      when (is (33 ∷ 124 ∷ 126 ∷ [])) (goto (st 21)) (
        when (eq 58) (goto tr39) (
          when (lt 45)
            (when (gt 39) (when (within 42 43) (goto (st 21)) (goto st0))
              (when (ge 35) (goto (st 21)) (goto st0)))
            (when (gt 46)
              (when (lt 65) (when (within 48 57) (goto (st 21)) (goto st0))
                (when (gt 90) (when (within 94 122) (goto (st 21)) (goto st0)) (goto (st 21))))
              (goto (st 21)))))))

abbrev pub case_81 : Switch Action
case_81 = when (eq 10) (goto (st 63)) (
    when (eq 32) (goto (st 64))
      (when (is (67 ∷ 99 ∷ [])) (goto tr100) (when (within 9 13) (goto (st 64)) (goto st0))))

abbrev pub case_82 : Switch Action
case_82 =
    when (eq 10) (goto tr45)
      (when (eq 13) (goto tr46) (when (is (72 ∷ 104 ∷ [])) (goto (st 83)) (goto (st 23))))

abbrev pub case_83 : Switch Action
case_83 =
    when (eq 10) (goto tr45)
      (when (eq 13) (goto tr46) (when (is (85 ∷ 117 ∷ [])) (goto (st 84)) (goto (st 23))))

abbrev pub case_84 : Switch Action
case_84 =
    when (eq 10) (goto tr45)
      (when (eq 13) (goto tr46) (when (is (78 ∷ 110 ∷ [])) (goto (st 85)) (goto (st 23))))

abbrev pub case_85 : Switch Action
case_85 =
    when (eq 10) (goto tr45)
      (when (eq 13) (goto tr46) (when (is (75 ∷ 107 ∷ [])) (goto (st 86)) (goto (st 23))))

abbrev pub case_86 : Switch Action
case_86 =
    when (eq 10) (goto tr45)
      (when (eq 13) (goto tr46) (when (is (69 ∷ 101 ∷ [])) (goto (st 87)) (goto (st 23))))

abbrev pub case_87 : Switch Action
case_87 =
    when (eq 10) (goto tr45)
      (when (eq 13) (goto tr46) (when (is (68 ∷ 100 ∷ [])) (goto (st 88)) (goto (st 23))))

abbrev pub case_88 : Switch Action
case_88 = when (eq 10) (goto tr107) (when (eq 13) (goto tr108) (goto (st 23)))

abbrev pub case_89 : Switch Action
case_89 = when (eq 10) (goto (st 40)) (
    when (eq 32) (goto (st 41)) (
      when (gt 13) (when (within 48 57) (goto tr70) (goto st0))
        (when (ge 9) (goto (st 41)) (goto st0))))

abbrev pub case_90 : Switch Action
case_90 =
    when (eq 10) (goto tr124)
      (when (eq 13) (goto tr125) (when (within 48 57) (goto (st 90)) (goto (st 23))))

abbrev pub case_91 : Switch Action
case_91 = goto st0

abbrev pub case_92 : Switch Action
case_92 = when (eq 32) (goto (st 41)) (
    when (gt 13) (when (within 48 57) (goto tr70) (goto st0))
      (when (ge 9) (goto (st 41)) (goto st0)))

abbrev pub case_93 : Switch Action
case_93 =
    when (eq 32) (goto (st 64))
      (when (is (67 ∷ 99 ∷ [])) (goto tr100) (when (within 9 13) (goto (st 64)) (goto st0)))
