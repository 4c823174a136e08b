-- ===== src/Translations/Ja/Wallet.antt =====
-- The Japanese texts of the views of the wallet, lines 1748 to 1843 of frontend/src/i18n/translations.ts.
use lokinode.Translations.Table.{Table}
use mathlib.Core.List.{[], ◌∷◌}

unfoldable pub texts : Table
texts =
    ("send.total_cost", "合計金額")
    ∷ ("send.confirm_send", "確認して送金")
    ∷ ("send.recipient", "受取人のアドレス")
    ∷ ("send.amount", "金額 (FLC)")
    ∷ ("send.available", "利用可能：{{amount}} FLC")
    ∷ ("send.fee_speed", "手数料速度")
    ∷ ("send.economy", "エコノミー")
    ∷ ("send.standard", "標準")
    ∷ ("send.fast", "高速")
    ∷ ("send.next", "次へ")
    ∷ ("send.back", "戻る")
    ∷ ("send.review", "確認")
    ∷ ("send.estimating", "見積もり中…")
    ∷ ("send.confirm_title", "トランザクションの確認")
    ∷ ("send.to", "送信先")
    ∷ ("send.amount_label", "金額")
    ∷ ("send.fee_rate", "手数料レート")
    ∷ ("send.est_fee", "推定手数料")
    ∷ ("send.balance_after", "送金後の残高")
    ∷ ("send.coins", "コインを送る")
    ∷ ("send.sending", "送金中…")
    ∷ ("send.success", "送金完了！")
    ∷ ("send.errors.address", "アドレスを入力してください")
    ∷ ("send.errors.amount", "無効な金額です")
    ∷ ("send.errors.fee", "手数料を見積もれませんでした")
    ∷ ("send.errors.failed", "送金に失敗しました")
    ∷ ("send.address_ph", "flc1q…")
    ∷ ("send.address_first", "先に受取人のアドレスを入力してください")
    ∷ ("send.amount_ph", "0.00000000")
    ∷ ("send.review_title", "トランザクションを確認")
    ∷ ("send.sending_label", "送金額")
    ∷ ("send.network_fee", "ネットワーク手数料")
    ∷ ("send.arrival_est", "到着予定：約{{time}}分")
    ∷ ("send.calculating", "計算中…")
    ∷ ("send.errors.exceeds_balance", "金額が残高を超えています")
    ∷ ("send.errors.leave_fee_room", "金額が高すぎます — 手数料分を確保してください（約 {{fee}} FLC）")
    ∷ ("history.empty", "まだトランザクションはありません")
    ∷ ("history.load_more", "さらに読み込む（残り{{count}}件）")
    ∷ ("history.unconfirmed", "未確認")
    ∷ ("history.conf", "{{count}}確認")
    ∷ ("about.version", "バージョン")
    ∷ ("about.latest", "最新")
    ∷ ("about.latest_badge", "最新")
    ∷ ("about.download", "アップデートをダウンロード")
    ∷ ("about.github", "GitHubで見る")
    ∷ ("update.title", "アップデートが利用可能")
    ∷ ("update.body", "バージョン{{version}}にはセキュリティの改善とバグ修正が含まれています。")
    ∷ ("update.later", "後で")
    ∷ ("update.now", "今すぐ更新")
    ∷ ("wallet.setup.title", "ウォレット設定")
    ∷ ("wallet.setup.new", "新規ウォレット")
    ∷ ("wallet.setup.mnemonic", "ニーモニック")
    ∷ ("wallet.setup.private", "秘密鍵")
    ∷ ("wallet.pwd.title", "ウォレットパスワードを設定")
    ∷ ("wallet.pwd.label", "ウォレットパスワード")
    ∷ ("wallet.pwd.confirm", "パスワードの確認")
    ∷ ("wallet.pwd.repeat_ph", "パスワードを再入力")
    ∷ ("wallet.new.title", "追加の保護")
    ∷ ("wallet.new.optional", "（オプション）")
    ∷ ("wallet.new.seed_pwd", "シードパスフレーズ")
    ∷ ("wallet.new.seed_pwd_ph", "オプション — 不要な場合は空白")
    ∷ ("wallet.new.confirm_pwd", "パスフレーズの確認")
    ∷ ("wallet.new.confirm_pwd_ph", "パスフレーズを再入力")
    ∷ ("wallet.new.generate", "ウォレットを生成")
    ∷ ("wallet.new.recovery_title", "リカバリーフレーズ")
    ∷ ("wallet.new.recovery_desc", "この24単語を書き留めて安全に保管してください。ウォレットを回復する唯一の手段です。")
    ∷ ("wallet.new.saved_btn", "フレーズを保存しました")
    ∷ ("wallet.new.mismatch", "パスフレーズが一致しません")
    ∷ ("wallet.new.error", "ウォレットエラー")
    ∷ ("wallet.import.recovery", "リカバリーフレーズ")
    ∷ ("wallet.import.recovery_ph", "24単語をスペースで区切って入力してください")
    ∷ ("wallet.import.seed_pwd", "シードパスフレーズ（オプション）")
    ∷ ("wallet.import.seed_pwd_ph", "オプション — 不要な場合は空白")
    ∷ ("wallet.import.restore", "ウォレットを復元")
    ∷ ("wallet.import.error_24words", "正確に24単語を入力してください")
    ∷ ("wallet.import.error", "インポートエラー")
    ∷ ("wallet.private.label", "秘密鍵")
    ∷ ("wallet.private.ph", "e9860a33a39e80c427382d619946808f5d75571694f6c4d7e9f3b5c777d0a7a3")
    ∷ ("wallet.errors.key_required", "秘密鍵を入力してください")
    ∷ ("wallet.mnemonic.notice", "重要なセキュリティのお知らせ")
    ∷ ("wallet.mnemonic.ensure", "ニーモニックフレーズを安全にバックアップしたことを確認してください。")
    ∷ ("wallet.mnemonic.point1", "これらの単語をバックアップできる唯一の機会です")
    ∷ ("wallet.mnemonic.point2", "このバックアップがなければ、紛失時にウォレットを回復できません")
    ∷ ("wallet.mnemonic.point3", "このバックアップを安全な場所に保管し、決して誰にも共有しないでください")
    ∷ ("wallet.mnemonic.footer", "確認後、これらの単語は二度と表示されません")
    ∷ ("wallet.mnemonic.back", "戻る")
    ∷ ("wallet.mnemonic.confirm", "ニーモニックをバックアップしました")
    ∷ ("common.info", "情報")
    ∷ ("common.close", "閉じる")
    ∷ ("common.apply", "適用")
    ∷ ("common.save", "保存")
    ∷ ("common.copy", "コピー")
    ∷ ("common.copied", "コピーしました")
    ∷ ("common.processing", "処理中…")
    ∷ ("common.error", "エラー")
    ∷ ("common.continue", "続ける")
    ∷ []
